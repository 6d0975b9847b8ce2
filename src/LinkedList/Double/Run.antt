-- ===== src/LinkedList/Double/Run.antt =====
-- A `dlist` of cdinit/dinit/src/includes/dinit-ll.h through any sequence of its operations.
use cdinit.Base.{
  ℕ, true, false, not, Option, none, some, is_some, List, [], ◌∷◌, ◌++◌, head?, contains, ◌≡◌, refl,
  ap,
}
use cdinit.LinkedList.Double.{DList, is_empty, is_queued, append, tail, pop_front, unlink}
use cdinit.LinkedList.Double.Refine.{
  Repr, last?, is_queued-Repr, tail-Repr, append-Repr, pop_front-Repr,
}
use cdinit.LinkedList.Double.Without.{without}
use cdinit.LinkedList.Double.Unlink.{unlink-Repr}

-- The operations of the class that change the list.
pub data Op : Type 0 where
  appends : ℕ → Op
  pops : Op
  unlinks : ℕ → Op

abbrev pub empty : DList
empty = record { first = none; next = λ _. none; prev = λ _. none }

abbrev keep_popped : List ℕ → DList → Option (ℕ × DList) → List ℕ × DList
keep_popped outs l none = (outs, l)
keep_popped outs l (some (x, m)) = (x ∷ outs, m)

-- With the elements popped so far, the last one first.
abbrev perform : Op → List ℕ × DList → List ℕ × DList
perform (appends e) (outs, l) = (outs, append l e)
perform pops (outs, l) = keep_popped outs l (pop_front l)
perform (unlinks e) (outs, l) = (outs, unlink l e)

abbrev pub run : List Op → List ℕ × DList → List ℕ × DList
run [] s = s
run (o ∷ ops) s = run ops (perform o s)

abbrev expect : Op → List ℕ × List ℕ → List ℕ × List ℕ
expect (appends e) (outs, xs) = (outs, xs ++ (e ∷ []))
expect pops (outs, []) = (outs, [])
expect pops (outs, x ∷ r) = (x ∷ outs, r)
expect (unlinks e) (outs, xs) = (outs, without e xs)

abbrev pub expect_all : List Op → List ℕ × List ℕ → List ℕ × List ℕ
expect_all [] s = s
expect_all (o ∷ ops) s = expect_all ops (expect o s)

-- What the callers see to: an element is in the list at most once, is in it when it is taken out, and
-- no element is popped from an empty list.
abbrev IsFit : Op → List ℕ → Type 0
IsFit (appends e) xs = contains xs e ≡ false
IsFit pops xs = is_some (head? xs) ≡ true
IsFit (unlinks e) xs = contains xs e ≡ true

abbrev pub AreFit : List Op → List ℕ × List ℕ → Type 0
AreFit [] s = Unit
AreFit (o ∷ ops) s = IsFit o s.1 × AreFit ops (expect o s)

Same : List ℕ × DList → List ℕ × List ℕ → Type 0
Same s t = (s.0 ≡ t.0) × Repr s.1 t.1

perform-Same :
    (o : Op) (s : List ℕ × DList) (t : List ℕ × List ℕ)
    → Same s t
    → IsFit o t.1
    → Same (perform o s) (expect o t)
unfolding Same
perform-Same (appends e) s t (p, h) f = (p, append-Repr s.1 t.1 e h f)
perform-Same (unlinks e) s t (p, h) f = (p, unlink-Repr s.1 t.1 e h f)
perform-Same pops (outs, l) (ins, []) (p, h) f = absurd (cc)
perform-Same pops (outs, l) (ins, x ∷ r) (p, h) f =
    let (m, q, k) = pop_front-Repr l x r h in rw q (ap (λ o. x ∷ o) p, k)

run-Same :
    (ops : List Op) (s : List ℕ × DList) (t : List ℕ × List ℕ)
    → Same s t
    → AreFit ops t
    → Same (run ops s) (expect_all ops t)
run-Same [] s t h f = h
run-Same (o ∷ ops) s t h (f, g) = run-Same ops (perform o s) (expect o t) (perform-Same o s t h f) g

is_empty-Repr : (l : DList) (xs : List ℕ) → Repr l xs → is_empty l ≡ not (is_some (head? xs))
unfolding is_empty
is_empty-Repr l xs h = ap (λ f. not (is_some f)) h.at_head

-- Any sequence of `append`, `pop_front` and `unlink` on a `dlist` that begins empty pops the
-- same elements as on a list of elements, and at the end `is_empty`, `tail` and `is_queued`
-- tell what they tell of that list: if no element is appended while it is in the list, none
-- is unlinked that is not in it, and none is popped from an empty list.
pub dlist_refines :
    (ops : List Op) (e : ℕ)
    → AreFit ops ([], [])
    → let (outs, l) = run ops ([], empty) in
      let (ins, xs) = expect_all ops ([], []) in
      (outs ≡ ins)
      × (is_empty l ≡ not (is_some (head? xs)))
      × (tail l ≡ last? xs)
      × (is_queued l e ≡ contains xs e)
unfolding Same
dlist_refines ops e f =
    let (p, h) = run-Same ops ([], empty) ([], []) (refl, nothing) f in
    let l = (run ops ([], empty)).1 in
    let xs = (expect_all ops ([], [])).1 in
    (p, is_empty-Repr l xs h, tail-Repr l xs h, is_queued-Repr l xs e h)
  where
    nothing : Repr empty []
    nothing = record { at_head = refl; nexts = λ k. refl; prevs = λ k. refl; distinct = tt }
