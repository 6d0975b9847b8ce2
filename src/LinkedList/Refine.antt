-- ===== src/LinkedList/Refine.antt =====
-- `slist` of cdinit/dinit/src/includes/dinit-ll.h against lists of elements.
use cdinit.Base.{
  ℕ, ◌==◌, if◌then◌else◌, false, Option, none, some, List, [], ◌∷◌, head?, ◌≡◌, refl, arith,
  Bool-cases, inl, inr, contains, ap, ◌∙◌, update, ◌++◌, is_some,
}
use cdinit.LinkedList.Queue
use cdinit.LinkedList.Queue.{successor}
use cdinit.LinkedList.{SList, is_queued, insert, pop_front}

-- The pointers spell the list: `first` is its head, and each node points to its successor.
pub record Repr (l : SList) (xs : List ℕ) : Type 0 where
  pub at_head : l.first ≡ head? xs
  pub linked : (e : ℕ) → l.next e ≡ successor xs e

-- No element stands before the last place twice.
abbrev pub IsSpread : List ℕ → Type 0
IsSpread [] = Unit
IsSpread (x ∷ r) = (successor r x ≡ none) × IsSpread r

pub is_queued-Repr :
    (l : SList) (xs : List ℕ) (e : ℕ) → Repr l xs → is_queued l e ≡ Queue.is_queued xs e
unfolding is_queued Queue.is_queued
is_queued-Repr l [] e h = ground (arith, h.linked e, h.at_head)
is_queued-Repr l (x ∷ r) e h = ground (arith, h.linked e, h.at_head)

successor-cons :
    (x e : ℕ) (r : List ℕ) → successor (x ∷ r) e ≡ (if e == x then head? r else successor r e)
successor-cons x e [] = ground arith
successor-cons x e (y ∷ r) = ground arith

pub insert-Repr : (l : SList) (xs : List ℕ) (e : ℕ) → Repr l xs → Repr (insert l e) (e ∷ xs)
unfolding insert
insert-Repr l xs e h = record {
  at_head = refl;
  linked = λ j. ground (arith, h.linked j, h.at_head, successor-cons e j xs);
}

successor-ne-head : (x y : ℕ) (r : List ℕ) → successor (x ∷ r) x ≡ head? r
successor-ne-head x y [] = refl
successor-ne-head x y (z ∷ r) = ground arith

pub pop_front-Repr :
    (l : SList) (x : ℕ) (r : List ℕ)
    → Repr l (x ∷ r)
    → successor r x ≡ none
    → (l' : SList) × (pop_front l ≡ some (x, l')) × Repr l' r
unfolding pop_front
pop_front-Repr l x r h s = (
  record l { first = l.next x; next = update l.next x none },
  ground (arith, h.at_head),
  record {
    at_head = h.linked x ∙ successor-ne-head x x r;
    linked = λ j. ground (arith, h.linked j, s, successor-cons x j r);
  },
)

successor-none : (xs : List ℕ) (e : ℕ) → Queue.is_queued xs e ≡ false → successor xs e ≡ none
unfolding Queue.is_queued
successor-none [] e h = refl
successor-none (x ∷ r) e h = ground arith

pub add-IsSpread : (xs : List ℕ) (e : ℕ) → IsSpread xs → IsSpread (Queue.add xs e)
unfolding Queue.add
add-IsSpread xs e h = elim (Bool-cases (Queue.is_queued xs e)) [
  | inl q ↦ rw (q, Queue.add) h
  | inr q ↦ rw (q, Queue.add) (successor-none xs e q, h)
]

-- The operations that the users of an `slist` make, in any order.
pub data Op : Type 0 where
  add : ℕ → Op
  pop : Op

abbrev pub guarded : SList → ℕ → SList
guarded l e = if is_queued l e then l else insert l e

-- What was popped (`none` when the list was empty) after each operation, in order.
pub run : SList → List Op → List (Option ℕ)
run l [] = []
run l (add e ∷ ops) = run (guarded l e) ops
run l (pop ∷ ops) =
    let rest = λ (m : SList). run m ops in
    elim (pop_front l) [ none ↦ none ∷ run l ops | some (x, l') ↦ some x ∷ rest l' ]

pub run_list : List ℕ → List Op → List (Option ℕ)
run_list xs [] = []
run_list xs (add e ∷ ops) = run_list (Queue.add xs e) ops
run_list [] (pop ∷ ops) = none ∷ run_list [] ops
run_list (x ∷ xs) (pop ∷ ops) = some x ∷ run_list xs ops

guarded-Repr : (l : SList) (xs : List ℕ) (e : ℕ) → Repr l xs → Repr (guarded l e) (Queue.add xs e)
unfolding Queue.add
guarded-Repr l xs e h = elim (Bool-cases (Queue.is_queued xs e)) [
  | inl q ↦ rw (is_queued-Repr l xs e h, q, Queue.add) h
  | inr q ↦ rw (is_queued-Repr l xs e h, q, Queue.add) (insert-Repr l xs e h)
]

pop_front-nil : (l : SList) → Repr l [] → pop_front l ≡ none
unfolding pop_front
pop_front-nil l h = ground (arith, h.at_head)

-- Any sequence of guarded insertions and removals on an `slist` that spells a list returns
-- what the same operations return on that list, if no element stands before the last place
-- of the list twice.
pub run_refines :
    (ops : List Op) (l : SList) (xs : List ℕ)
    → Repr l xs
    → IsSpread xs
    → run l ops ≡ run_list xs ops
unfolding run run_list
run_refines [] l xs h s = refl
run_refines (add e ∷ ops) l xs h s =
    run_refines ops (guarded l e) (Queue.add xs e) (guarded-Repr l xs e h) (add-IsSpread xs e s)
run_refines (pop ∷ ops) l [] h s =
    rw (pop_front-nil l h, run) (ap (◌∷◌ none) (run_refines ops l [] h s))
run_refines (pop ∷ ops) l (x ∷ r) h s =
    let (l', e, h') = pop_front-Repr l x r h s.0 in
    rw (e, run) (ap (◌∷◌ (some x)) (run_refines ops l' r h' s.1))

successor-tail : (xs : List ℕ) (z e : ℕ) → is_some (successor (xs ++ (z ∷ [])) e) ≡ contains xs e
successor-tail [] z e = refl
successor-tail (x ∷ []) z e = ground arith
successor-tail (x ∷ y ∷ r) z e = ground (arith, successor-tail (y ∷ r) z e)

-- In an `slist` that spells a list of two elements or more, `is_queued` is true of the
-- elements before the last place, and of no other.
pub is_queued-tail :
    (l : SList) (x : ℕ) (mid : List ℕ) (z e : ℕ)
    → Repr l ((x ∷ mid) ++ (z ∷ []))
    → is_queued l e ≡ contains (x ∷ mid) e
unfolding Queue.is_queued
is_queued-tail l x mid z e h =
    rw (is_queued-Repr l ((x ∷ mid) ++ (z ∷ [])) e h) (ground (arith, successor-tail (x ∷ mid) z e))
