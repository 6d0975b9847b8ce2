-- ===== src/LinkedList/Double/Circle.antt =====
-- The pointers of a `dlist` (cdinit/dinit/src/includes/dinit-ll.h) that spells a list.
use cdinit.Base.{
  IsDistinct, ℕ, ◌==◌, if◌then◌else◌, true, false, Option, none, some, is_some, List, [], ◌∷◌, ◌++◌,
  contains, arith, ◌≡◌, refl,
}

-- The element behind `e`, and `h` behind the last one.
abbrev pub next_in : ℕ → List ℕ → ℕ → Option ℕ
next_in h [] e = none
next_in h (x ∷ []) e = if x == e then some h else none
next_in h (x ∷ y ∷ r) e = let rest = next_in h (y ∷ r) e in if x == e then some y else rest

-- The element before `e`, and `p` before the first one.
abbrev pub prev_in : ℕ → List ℕ → ℕ → Option ℕ
prev_in p [] e = none
prev_in p (x ∷ r) e = let rest = prev_in x r e in if x == e then some p else rest

abbrev pub last_of : ℕ → List ℕ → ℕ
last_of x [] = x
last_of x (y ∷ r) = last_of y r

pub contains-last_of : (x : ℕ) (r : List ℕ) → contains (x ∷ r) (last_of x r) ≡ true
contains-last_of x [] = ground arith
contains-last_of x (y ∷ r) = ground (arith, contains-last_of y r)

pub next_in-append :
    (h x : ℕ) (r : List ℕ) (e k : ℕ)
    → IsDistinct (x ∷ r)
    → contains (x ∷ r) e ≡ false
    → next_in h (x ∷ (r ++ (e ∷ []))) k
      ≡ (if k == last_of x r then some e else (if k == e then some h else next_in h (x ∷ r) k))
next_in-append h x [] e k d a = ground (arith, a)
next_in-append h x (y ∷ r) e k d a =
    ground (arith, next_in-append h y r e k d.1 (ground (arith, a)), contains-last_of y r, d.0, a)

pub prev_in-append :
    (p x : ℕ) (r : List ℕ) (e k : ℕ)
    → contains (x ∷ r) e ≡ false
    → prev_in p (x ∷ (r ++ (e ∷ []))) k
      ≡ (if k == e then some (last_of x r) else prev_in p (x ∷ r) k)
prev_in-append p x [] e k a = ground (arith, a)
prev_in-append p x (y ∷ r) e k a = ground (arith, prev_in-append x y r e k (ground (arith, a)), a)

pub next_in-head :
    (h g x : ℕ) (r : List ℕ) (k : ℕ)
    → IsDistinct (x ∷ r)
    → next_in g (x ∷ r) k ≡ (if k == last_of x r then some g else next_in h (x ∷ r) k)
next_in-head h g x [] k d = ground arith
next_in-head h g x (y ∷ r) k d =
    ground (arith, next_in-head h g y r k d.1, contains-last_of y r, d.0)

pub next_in-absent : (h : ℕ) (xs : List ℕ) (k : ℕ) → contains xs k ≡ false → next_in h xs k ≡ none
next_in-absent h [] k a = refl
next_in-absent h (x ∷ []) k a = ground (arith, a)
next_in-absent h (x ∷ y ∷ r) k a = ground (arith, next_in-absent h (y ∷ r) k (ground (arith, a)), a)

pub prev_in-absent : (p : ℕ) (xs : List ℕ) (k : ℕ) → contains xs k ≡ false → prev_in p xs k ≡ none
prev_in-absent p [] k a = refl
prev_in-absent p (x ∷ r) k a = ground (arith, prev_in-absent x r k (ground (arith, a)), a)

pub next_in-queued : (h : ℕ) (xs : List ℕ) (k : ℕ) → is_some (next_in h xs k) ≡ contains xs k
next_in-queued h [] k = refl
next_in-queued h (x ∷ []) k = ground arith
next_in-queued h (x ∷ y ∷ r) k = ground (arith, next_in-queued h (y ∷ r) k)
