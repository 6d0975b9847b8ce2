-- ===== src/LinkedList/Double/Without.antt =====
-- The circle of a `dlist` without one of its elements, of cdinit/dinit/src/includes/dinit-ll.h.
use cdinit.Base.{
  IsDistinct, if_case, ℕ, ◌==◌, if◌then◌else◌, true, false, none, some, List, [], ◌∷◌, contains,
  arith, ◌≡◌, refl, Bool-cases, inl, inr, not, ◌&&◌,
}
use cdinit.LinkedList.{points_to}
use cdinit.LinkedList.Double.Circle.{next_in, prev_in, last_of, next_in-absent, prev_in-absent}

-- The list without its element `e`.
abbrev pub without : ℕ → List ℕ → List ℕ
without e [] = []
without e (x ∷ xs) = let rest = without e xs in if x == e then xs else x ∷ rest

prev_in-within :
    (p y : ℕ) (r : List ℕ) (e k : ℕ)
    → (y == e) ≡ false
    → contains (y ∷ r) k ≡ false
    → points_to (prev_in p (y ∷ r) e) k ≡ false
prev_in-within p y [] e k n a = ground (arith, n, a)
prev_in-within p y (z ∷ r) e k n a = elim (Bool-cases (z == e)) [
  | inl f ↦ ground (arith, n, a, f)
  | inr f ↦ ground (arith, n, a, f, prev_in-within y z r e k f (ground (arith, a)))
]

next_in-within :
    (h y : ℕ) (r : List ℕ) (e k : ℕ)
    → (h == k) ≡ false
    → contains r k ≡ false
    → points_to (next_in h (y ∷ r) e) k ≡ false
next_in-within h y [] e k n a = ground (arith, n)
next_in-within h y (z ∷ r) e k n a =
    ground (arith, n, a, next_in-within h z r e k n (ground (arith, a)))

-- Without an element that is not the first one.
pub next_in-without :
    (h p x : ℕ) (r : List ℕ) (e k : ℕ)
    → IsDistinct (x ∷ r)
    → (x == e) ≡ false
    → contains r e ≡ true
    → next_in h (x ∷ without e r) k ≡ (
        if k == e
        then none
        else (if points_to (prev_in p (x ∷ r) e) k
            then next_in h (x ∷ r) e
            else next_in h (x ∷ r) k))
next_in-without h p x [] e k d n c = absurd (cc)
next_in-without h p x (y ∷ []) e k d n c = ground (arith, d.0, n, c)
next_in-without h p x (y ∷ z ∷ r) e k d n c = elim (Bool-cases (y == e)) [
  | inl f ↦ rw f (ground (arith, f, n, d.0, next_in-absent h (z ∷ r) y d.1.0))
  | inr f ↦ rw f (
      ground (
        arith,
        n,
        f,
        next_in-without h x y (z ∷ r) e k d.1 f (ground (arith, c, f)),
        prev_in-within x y (z ∷ r) e x f d.0,
        d.0,
      ))
]

-- The last element is the one before `e`, if `e` was last.
pub last_of-without :
    (h p x : ℕ) (r : List ℕ) (e : ℕ)
    → IsDistinct (x ∷ r)
    → contains r h ≡ false
    → (x == e) ≡ false
    → contains r e ≡ true
    → some (last_of x (without e r))
      ≡ (if points_to (next_in h (x ∷ r) e) h then prev_in p (x ∷ r) e else some (last_of x r))
last_of-without h p x [] e d a n c = absurd (cc)
last_of-without h p x (y ∷ []) e d a n c = ground (arith, d.0, n, c, a)
last_of-without h p x (y ∷ z ∷ r) e d a n c = elim (Bool-cases (y == e)) [
  | inl f ↦ rw f (ground (arith, f, n, a))
  | inr f ↦ rw f (
      ground (
        arith,
        n,
        f,
        last_of-without h x y (z ∷ r) e d.1 (ground (arith, a)) f (ground (arith, c, f)),
      ))
]

-- The pointer back of every element but the first one.
pub prev_in-without :
    (h p q x : ℕ) (r : List ℕ) (e k : ℕ)
    → IsDistinct (x ∷ r)
    → contains r h ≡ false
    → (x == e) ≡ false
    → contains r e ≡ true
    → (x == k) ≡ false
    → prev_in q (x ∷ without e r) k ≡ (
        if k == e
        then none
        else (if points_to (next_in h (x ∷ r) e) k && not (k == h)
            then prev_in p (x ∷ r) e
            else prev_in p (x ∷ r) k))
prev_in-without h p q x [] e k d a n c m = absurd (cc)
prev_in-without h p q x (y ∷ []) e k d a n c m = ground (arith, d.0, n, c, a, m)
prev_in-without h p q x (y ∷ z ∷ r) e k d a n c m = elim (Bool-cases (y == e)) [
  | inl f ↦ rw f (ground (arith, f, n, a, m, d.0, prev_in-absent x (z ∷ r) y d.1.0))
  | inr f ↦ elim (Bool-cases (y == k)) [
    | inl g ↦ rw f (
        ground (
          arith,
          n,
          f,
          m,
          g,
          c,
          a,
          next_in-within h y (z ∷ r) e k (ground (arith, a, g)) (ground (arith, d.1.0, g)),
        ))
    | inr g ↦ rw f (
        ground (
          arith,
          n,
          f,
          m,
          g,
          prev_in-without h x x y (z ∷ r) e k d.1 (ground (arith, a)) f (ground (arith, c, f)) g,
        ))
  ]
]

pub absent-without :
    (e : ℕ) (xs : List ℕ) (k : ℕ) → contains xs k ≡ false → contains (without e xs) k ≡ false
absent-without e [] k a = refl
absent-without e (x ∷ xs) k a =
    if_case (x == e) (λ r. contains r k ≡ false) xs (x ∷ without e xs) (λ _. ground (arith, a))
      (λ _. ground (arith, a, absent-without e xs k (ground (arith, a))))

pub IsDistinct-without : (e : ℕ) (xs : List ℕ) → IsDistinct xs → IsDistinct (without e xs)
IsDistinct-without e [] d = tt
IsDistinct-without e (x ∷ xs) d =
    if_case (x == e) IsDistinct xs (x ∷ without e xs) (λ _. d.1)
      (λ _. (absent-without e xs x d.0, IsDistinct-without e xs d.1))
