-- ===== src/Utilities/Digits/Swap.antt =====
-- The reversal of the digits in `to_dec_digits` of cdinit/dinit/src/includes/dinit-util.h.
use cdinit.Base.{
  ℕ, zero, suc, ◌+◌, ◌-◌, ◌≤◌, ◌<◌, ◌==◌, ltb, if◌then◌else◌, Bool, true, false, [], ◌∷◌, ◌++◌,
  length, length-append, get_or, arith, ◌≡◌, ◌≢◌, refl, ap, ap₂, sym, ◌∙◌, Bool-cases, ◌⊎◌, inl,
  inr,
}
use mathlib.Core.List.{reverse, reverse-cons}
use cdinit.Utilities.{Text}
use cdinit.Utilities.Digits.{set_at, swap, swap_loop, swap_digits}

length-set_at : (xs : Text) (i c : ℕ) → length (set_at xs i c) ≡ length xs
length-set_at [] i c = refl
length-set_at (x ∷ xs) zero c = refl
length-set_at (x ∷ xs) (suc i) c = ap suc (length-set_at xs i c)

get_or-set_at : (xs : Text) (i c : ℕ) → i < length xs → get_or (set_at xs i c) i 0 ≡ c
get_or-set_at [] i c h = absurd (omega arith)
get_or-set_at (x ∷ xs) zero c h = refl
get_or-set_at (x ∷ xs) (suc i) c h = get_or-set_at xs i c (omega arith)

get_or-set_at_other : (xs : Text) (i c k : ℕ) → k ≢ i → get_or (set_at xs i c) k 0 ≡ get_or xs k 0
get_or-set_at_other [] i c k h = refl
get_or-set_at_other (x ∷ xs) zero c zero h = absurd (omega arith)
get_or-set_at_other (x ∷ xs) zero c (suc k) h = refl
get_or-set_at_other (x ∷ xs) (suc i) c zero h = refl
get_or-set_at_other (x ∷ xs) (suc i) c (suc k) h = get_or-set_at_other xs i c k (omega arith)

module _ (buf : Text) (i j : ℕ) (l : i < j) (m : j < length buf) where
  length-swap : length (swap buf i j) ≡ length buf
  length-swap =
      length-set_at (set_at buf i (get_or buf j 0)) j (get_or buf i 0)
      ∙ length-set_at buf i (get_or buf j 0)

  swapped_last : get_or (swap buf i j) j 0 ≡ get_or buf i 0
  swapped_last =
      get_or-set_at (set_at buf i (get_or buf j 0)) j (get_or buf i 0)
        (omega (arith, length-set_at buf i (get_or buf j 0)))

  swapped_first : get_or (swap buf i j) i 0 ≡ get_or buf j 0
  swapped_first =
      get_or-set_at_other (set_at buf i (get_or buf j 0)) j (get_or buf i 0) i (omega arith)
      ∙ get_or-set_at buf i (get_or buf j 0) (omega arith)

  swapped_other : (k : ℕ) → k ≢ i → k ≢ j → get_or (swap buf i j) k 0 ≡ get_or buf k 0
  swapped_other k h g =
      get_or-set_at_other (set_at buf i (get_or buf j 0)) j (get_or buf i 0) k g
      ∙ get_or-set_at_other buf i (get_or buf j 0) k h

-- What the loop leaves: outside of the two positions the buffer, within them its mirror image.
record IsMirrored (buf : Text) (i j : ℕ) (new : Text) : Type 0 where
  same_length : length new ≡ length buf
  outside : (k : ℕ) → (k < i) ⊎ (j < k) → get_or new k 0 ≡ get_or buf k 0
  within : (k m : ℕ) → i ≤ k → k ≤ j → k + m ≡ i + j → get_or new k 0 ≡ get_or buf m 0

IsMirrored-short : (buf : Text) (i j : ℕ) → j ≤ i → IsMirrored buf i j buf
IsMirrored-short buf i j h = record {
  same_length = refl;
  outside = λ k _. refl;
  within = λ k m a b e. ap (λ n. get_or buf n 0) (omega arith);
}

equal_or_not : (a b : ℕ) → (a ≡ b) ⊎ (a ≢ b)
equal_or_not a b = elim (Bool-cases (a == b)) [
  | inl e ↦ inl (ground arith)
  | inr e ↦ inr (ground arith)
]

module _ (buf : Text) (i j : ℕ) (new : Text) (l : i < j) (m : j < length buf)
    (h : IsMirrored (swap buf i j) (suc i) (j - 1) new) where
  around : (k : ℕ) → (k < i) ⊎ (j < k) → (k < suc i) ⊎ (j - 1 < k)
  around k (inl o) = inl (omega arith)
  around k (inr o) = inr (omega arith)

  aside : (k : ℕ) → (k < i) ⊎ (j < k) → (k ≢ i) × (k ≢ j)
  aside k (inl o) = (omega arith, omega arith)
  aside k (inr o) = (omega arith, omega arith)

  at_first : (k n : ℕ) → k ≡ i → k + n ≡ i + j → get_or new k 0 ≡ get_or buf n 0
  at_first k n a e =
      h.outside k (inl (omega arith))
      ∙ ap (λ x. get_or (swap buf i j) x 0) a
      ∙ swapped_first buf i j l m
      ∙ ap (λ x. get_or buf x 0) {x = j} {y = n} (omega arith)

  at_last : (k n : ℕ) → k ≡ j → k + n ≡ i + j → get_or new k 0 ≡ get_or buf n 0
  at_last k n a e =
      h.outside k (inr (omega arith))
      ∙ ap (λ x. get_or (swap buf i j) x 0) a
      ∙ swapped_last buf i j l m
      ∙ ap (λ x. get_or buf x 0) {x = i} {y = n} (omega arith)

  inside : (k n : ℕ) → i < k → k < j → k + n ≡ i + j → get_or new k 0 ≡ get_or buf n 0
  inside k n a b e =
      h.within k n (omega arith) (omega arith) (omega arith)
      ∙ swapped_other buf i j l m n (omega arith) (omega arith)

  everywhere : (k n : ℕ) → i ≤ k → k ≤ j → k + n ≡ i + j → get_or new k 0 ≡ get_or buf n 0
  everywhere k n a b e = elim (equal_or_not k i) [
    | inl x ↦ at_first k n x e
    | inr x ↦ elim (equal_or_not k j) [
      | inl y ↦ at_last k n y e
      | inr y ↦ inside k n (omega arith) (omega arith) e
    ]
  ]

  IsMirrored-step : IsMirrored buf i j new
  IsMirrored-step = record {
    same_length = h.same_length ∙ length-swap buf i j l m;
    outside =
        λ k o. h.outside k (around k o) ∙ swapped_other buf i j l m k (aside k o).0 (aside k o).1;
    within = everywhere;
  }

branch :
    (b : Bool) (buf : Text) (i j : ℕ) (new : Text)
    → (b ≡ false → j ≤ i)
    → (b ≡ true → IsMirrored buf i j new)
    → IsMirrored buf i j (if b then new else buf)
branch true buf i j new h k = k refl
branch false buf i j new h k = IsMirrored-short buf i j (h refl)

swap_loop-IsMirrored :
    (n : ℕ) (buf : Text) (i j : ℕ)
    → j ≤ i + n
    → (j < length buf) ⊎ (j ≤ i)
    → IsMirrored buf i j (swap_loop n buf i j)
unfolding swap_loop
swap_loop-IsMirrored zero buf i j h k = IsMirrored-short buf i j (omega arith)
swap_loop-IsMirrored (suc n) buf i j h k =
    branch (ltb i j) buf i j (swap_loop n (swap buf i j) (suc i) (j - 1)) (λ e. ground arith)
      (λ e.
        let l : i < j = ground arith in
        let m : j < length buf = elim k [ inl x ↦ x | inr x ↦ absurd (omega arith) ] in
        IsMirrored-step buf i j (swap_loop n (swap buf i j) (suc i) (j - 1)) l m (
          swap_loop-IsMirrored n (swap buf i j) (suc i) (j - 1) (omega arith)
            (inl (omega (arith, length-swap buf i j l m)))))

-- Lists of one length with the same entries.
same_entries :
    (xs ys : Text)
    → length xs ≡ length ys
    → ((k : ℕ) → k < length xs → get_or xs k 0 ≡ get_or ys k 0)
    → xs ≡ ys
same_entries [] [] e h = refl
same_entries [] (y ∷ ys) e h = absurd (omega arith)
same_entries (x ∷ xs) [] e h = absurd (omega arith)
same_entries (x ∷ xs) (y ∷ ys) e h =
    ap₂ (λ b bs. b ∷ bs) (h 0 (omega arith))
      (same_entries xs ys (omega arith) (λ k l. h (suc k) (omega arith)))

get_or-append_left : (xs ys : Text) (k : ℕ) → k < length xs → get_or (xs ++ ys) k 0 ≡ get_or xs k 0
get_or-append_left [] ys k h = absurd (omega arith)
get_or-append_left (x ∷ xs) ys zero h = refl
get_or-append_left (x ∷ xs) ys (suc k) h = get_or-append_left xs ys k (omega arith)

get_or-snoc : (xs : Text) (y k : ℕ) → k ≡ length xs → get_or (xs ++ (y ∷ [])) k 0 ≡ y
get_or-snoc [] y zero h = refl
get_or-snoc [] y (suc k) h = absurd (omega arith)
get_or-snoc (x ∷ xs) y zero h = absurd (omega arith)
get_or-snoc (x ∷ xs) y (suc k) h = get_or-snoc xs y k (omega arith)

pub length-reverse : (xs : Text) → length (reverse xs) ≡ length xs
length-reverse [] = refl
length-reverse (x ∷ xs) =
    rw (reverse-cons x xs) (omega (arith, length-append (reverse xs) (x ∷ []), length-reverse xs))

get_or-reverse :
    (xs : Text) (k n : ℕ) → suc (k + n) ≡ length xs → get_or (reverse xs) k 0 ≡ get_or xs n 0
get_or-reverse [] k n h = absurd (omega arith)
get_or-reverse (x ∷ xs) k zero h =
    rw (reverse-cons x xs) (get_or-snoc (reverse xs) x k (omega (arith, length-reverse xs)))
get_or-reverse (x ∷ xs) k (suc n) h = rw (reverse-cons x xs) (
    get_or-append_left (reverse xs) (x ∷ []) k (omega (arith, length-reverse xs))
    ∙ get_or-reverse xs k n (omega arith))

-- Swapping from both ends to the middle, as `to_dec_digits` does, reverses the digits, for
-- any digits.
pub swap_digits-reverse : (buf : Text) → swap_digits buf ≡ reverse buf
unfolding swap_digits
swap_digits-reverse [] = refl
swap_digits-reverse (c ∷ cs) =
    let buf = c ∷ cs in
    let new = swap_loop (length buf) buf 0 (length buf - 1) in
    let h =
      swap_loop-IsMirrored (length buf) buf 0 (length buf - 1) (omega arith) (inl (omega arith)) in
    same_entries new (reverse buf) (h.same_length ∙ sym (length-reverse buf)) (λ k l.
      let n = length cs - k in
      let s : k < length buf = omega (arith, h.same_length) in
      h.within k n (omega arith) (omega arith) (omega arith)
      ∙ sym (get_or-reverse buf k n (omega arith)))
