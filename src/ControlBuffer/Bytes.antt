-- ===== src/ControlBuffer/Bytes.antt =====
-- `memcpy` into and out of an array, for cdinit/dinit/src/includes/cpbuffer.h.
use cdinit.Base.{
  ℕ, zero, suc, ◌+◌, ◌-◌, ◌≤◌, ◌<◌, ◌≡◌, refl, ap, ap₂, ltb, if◌then◌else◌, ◌&&◌, leb, List, [],
  ◌∷◌, ◌++◌, length, get_or, take, drop, arith, ◌∙◌, sym,
}

-- Copies bytes over those from an index on; what would go past the end is dropped.
unfoldable pub write : List ℕ → ℕ → List ℕ → List ℕ
write [] i s = []
write (x ∷ xs) (suc i) s = x ∷ write xs i s
write (x ∷ xs) zero [] = x ∷ xs
write (x ∷ xs) zero (y ∷ s) = y ∷ write xs zero s

unfoldable pub slice : List ℕ → ℕ → ℕ → List ℕ
slice buf start len = take len (drop start buf)

pub tabulate : (ℕ → ℕ) → ℕ → List ℕ
tabulate f zero = []
tabulate f (suc n) = f 0 ∷ tabulate (λ i. f (suc i)) n

pub length-write : (buf : List ℕ) (i : ℕ) (s : List ℕ) → length (write buf i s) ≡ length buf
unfolding write
length-write [] i s = refl
length-write (x ∷ xs) (suc i) s = ap suc (length-write xs i s)
length-write (x ∷ xs) zero [] = refl
length-write (x ∷ xs) zero (y ∷ s) = ap suc (length-write xs zero s)

pub get_or-write :
    (buf : List ℕ) (i : ℕ) (s : List ℕ) (j : ℕ)
    → i + length s ≤ length buf
    → get_or (write buf i s) j 0
      ≡ (if leb i j && ltb j (i + length s) then get_or s (j - i) 0 else get_or buf j 0)
unfolding write
get_or-write [] i s j h = ground arith
get_or-write (x ∷ xs) (suc i) s zero h = ground arith
get_or-write (x ∷ xs) (suc i) s (suc j) h = ground (arith, get_or-write xs i s j)
get_or-write (x ∷ xs) zero [] j h = ground arith
get_or-write (x ∷ xs) zero (y ∷ s) zero h = ground arith
get_or-write (x ∷ xs) zero (y ∷ s) (suc j) h = ground (arith, get_or-write xs zero s j)

pub tabulate-congr :
    (f k : ℕ → ℕ) (n : ℕ) → ((i : ℕ) → i < n → f i ≡ k i) → tabulate f n ≡ tabulate k n
unfolding tabulate
tabulate-congr f k zero e = refl
tabulate-congr f k (suc n) e = ground (
  arith,
  e 0,
  tabulate-congr (λ i. f (suc i)) (λ i. k (suc i)) n (λ i lt. e (suc i) (omega arith)),
)

tabulate_step : (f : ℕ → ℕ) (k n : ℕ) → k ≡ suc n → tabulate f k ≡ f 0 ∷ tabulate (λ i. f (suc i)) n
unfolding tabulate
tabulate_step f k n e = ap (tabulate f) e

-- Two functions of numbers agree at equal numbers.
tabulate_at :
    (f k : ℕ → ℕ) (n : ℕ)
    → ((i : ℕ) → i < n → (j : ℕ) × (k i ≡ f j) × (j ≡ i))
    → tabulate f n ≡ tabulate k n
tabulate_at f k n e = tabulate-congr f k n (λ i lt. let (j, p, q) = e i lt in ap f (sym q) ∙ sym p)

pub tabulate-append :
    (f : ℕ → ℕ) (n : ℕ) (s : List ℕ)
    → ((j : ℕ) → j < length s → f (n + j) ≡ get_or s j 0)
    → tabulate f (n + length s) ≡ tabulate f n ++ s
unfolding tabulate
tabulate-append f zero [] e = refl
tabulate-append f zero (x ∷ s) e =
    tabulate_step f (0 + suc (length s)) (0 + length s) (omega arith)
    ∙ ap₂ ◌∷◌ (e 0 (omega arith)) (
        tabulate-append (λ i. f (suc i)) zero s
          (λ j lt. ap f {x = suc (0 + j)} {y = 0 + suc j} (omega arith) ∙ e (suc j) (omega arith)))
tabulate-append f (suc n) s e =
    tabulate_step f (suc n + length s) (n + length s) (omega arith)
    ∙ ap (◌∷◌ (f 0)) (
        tabulate-append (λ i. f (suc i)) n s
          (λ j lt. ap f {x = suc (n + j)} {y = suc n + j} (omega arith) ∙ e j lt))

pub drop-tabulate :
    (f : ℕ → ℕ) (a n : ℕ) → drop a (tabulate f (a + n)) ≡ tabulate (λ i. f (a + i)) n
unfolding tabulate
drop-tabulate f zero n =
    ap (tabulate f) {x = 0 + n} {y = n} (omega arith)
    ∙ tabulate_at f (λ i. f (0 + i)) n (λ i lt. (0 + i, refl, omega arith))
drop-tabulate f (suc a) n =
    ap (drop (suc a)) (tabulate_step f (suc a + n) (a + n) (omega arith))
    ∙ drop-tabulate (λ i. f (suc i)) a n
    ∙ tabulate-congr (λ i. f (suc (a + i))) (λ i. f (suc a + i)) n
        (λ i lt. ap f {x = suc (a + i)} {y = suc a + i} (omega arith))

pub take-tabulate : (f : ℕ → ℕ) (a n : ℕ) → take a (tabulate f (a + n)) ≡ tabulate f a
unfolding tabulate
take-tabulate f zero n = refl
take-tabulate f (suc a) n =
    ap (take (suc a)) (tabulate_step f (suc a + n) (a + n) (omega arith))
    ∙ ap (◌∷◌ (f 0)) (take-tabulate (λ i. f (suc i)) a n)

-- What `slice` reads, byte by byte.
pub slice-tabulate :
    (buf : List ℕ) (start len : ℕ)
    → start + len ≤ length buf
    → slice buf start len ≡ tabulate (λ i. get_or buf (start + i) 0) len
unfolding slice tabulate
slice-tabulate buf zero zero h = refl
slice-tabulate [] zero (suc len) h = absurd (omega arith)
slice-tabulate (x ∷ buf) zero (suc len) h = ap (◌∷◌ x) (
    slice-tabulate buf zero len (omega arith)
    ∙ tabulate-congr (λ i. get_or buf (0 + i) 0) (λ i. get_or (x ∷ buf) (0 + suc i) 0) len
        (λ i lt. ap (λ k. get_or (x ∷ buf) k 0) {x = suc (0 + i)} {y = 0 + suc i} (omega arith)))
slice-tabulate [] (suc start) len h = absurd (omega arith)
slice-tabulate (x ∷ buf) (suc start) len h =
    slice-tabulate buf start len (omega arith)
    ∙ tabulate-congr (λ i. get_or buf (start + i) 0) (λ i. get_or (x ∷ buf) (suc start + i) 0) len
        (λ i lt.
          ap (λ k. get_or (x ∷ buf) k 0) {x = suc (start + i)} {y = suc start + i} (omega arith))

pub tabulate_split :
    (f : ℕ → ℕ) (n m : ℕ) → tabulate f (n + m) ≡ tabulate f n ++ tabulate (λ i. f (n + i)) m
unfolding tabulate
tabulate_split f zero m =
    ap (tabulate f) {x = 0 + m} {y = m} (omega arith)
    ∙ tabulate_at f (λ i. f (0 + i)) m (λ i lt. (0 + i, refl, omega arith))
tabulate_split f (suc n) m =
    tabulate_step f (suc n + m) (n + m) (omega arith)
    ∙ ap (◌∷◌ (f 0)) (
        tabulate_split (λ i. f (suc i)) n m
        ∙ ap (◌++◌ (tabulate (λ i. f (suc i)) n)) (
            tabulate-congr (λ i. f (suc (n + i))) (λ i. f (suc n + i)) m
              (λ i lt. ap f {x = suc (n + i)} {y = suc n + i} (omega arith))))
