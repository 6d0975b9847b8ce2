-- ===== src/LinkedList/Double/Refine.antt =====
-- `dlist` of cdinit/dinit/src/includes/dinit-ll.h against lists of elements.
use cdinit.Base.{
  subst, IsDistinct, IsDistinct-append, ℕ, ◌==◌, true, false, Option, none, some, is_some, List, [],
  ◌∷◌, ◌++◌, head?, contains, update, arith, ◌≡◌, refl, ap, sym, ◌∙◌,
}
use cdinit.LinkedList.{points_to}
use cdinit.LinkedList.Double.{
  DList, at, is_queued, append_to, append, tail, pop_first, pop_front, unlink_only, unlink_first,
}
use cdinit.LinkedList.Double.Circle.{
  next_in, prev_in, last_of, contains-last_of, next_in-append, prev_in-append, next_in-head,
  next_in-absent, prev_in-absent, next_in-queued,
}

abbrev pub next_around : List ℕ → ℕ → Option ℕ
next_around [] e = none
next_around (x ∷ r) e = next_in x (x ∷ r) e

abbrev pub prev_around : List ℕ → ℕ → Option ℕ
prev_around [] e = none
prev_around (x ∷ r) e = prev_in (last_of x r) (x ∷ r) e

-- The pointers spell the list, each element once: its elements form a circle, and no other element
-- has pointers.
pub record Repr (l : DList) (xs : List ℕ) : Type 0 where
  pub at_head : l.first ≡ head? xs
  pub nexts : (e : ℕ) → l.next e ≡ next_around xs e
  pub prevs : (e : ℕ) → l.prev e ≡ prev_around xs e
  pub distinct : IsDistinct xs

pub is_queued-Repr : (l : DList) (xs : List ℕ) (e : ℕ) → Repr l xs → is_queued l e ≡ contains xs e
unfolding is_queued
is_queued-Repr l [] e h = ap is_some (h.nexts e)
is_queued-Repr l (x ∷ r) e h = ap is_some (h.nexts e) ∙ next_in-queued x (x ∷ r) e

abbrev pub last? : List ℕ → Option ℕ
last? [] = none
last? (x ∷ r) = some (last_of x r)

pub first_prev : (l : DList) (x : ℕ) (r : List ℕ) → Repr l (x ∷ r) → l.prev x ≡ some (last_of x r)
first_prev l x r h = h.prevs x ∙ ground arith

pub tail-Repr : (l : DList) (xs : List ℕ) → Repr l xs → tail l ≡ last? xs
unfolding tail
tail-Repr l [] h = ap (at l.prev) h.at_head
tail-Repr l (x ∷ r) h = ap (at l.prev) h.at_head ∙ first_prev l x r h

last_of-append : (x : ℕ) (r : List ℕ) (e : ℕ) → last_of x (r ++ (e ∷ [])) ≡ e
last_of-append x [] e = refl
last_of-append x (y ∷ r) e = last_of-append y r e

append_to-Repr :
    (l : DList) (xs : List ℕ) (e : ℕ)
    → Repr l xs
    → contains xs e ≡ false
    → Repr (append_to l e (head? xs)) (xs ++ (e ∷ []))
unfolding append_to
append_to-Repr l [] e h a = record {
  at_head = refl;
  nexts = λ k. ground (arith, h.nexts k);
  prevs = λ k. ground (arith, h.prevs k);
  distinct = (refl, tt);
}
append_to-Repr l (x ∷ r) e h a = record {
  at_head = h.at_head;
  nexts = λ k.
      let q : update l.prev e (l.prev x) x ≡ some (last_of x r) =
        ground (arith, first_prev l x r h, a) in
      rw q (ground (arith, next_in-append x x r e k h.distinct a, h.nexts k));
  prevs = λ k. ground (
    arith,
    prev_in-append (last_of x r) x r e k a,
    last_of-append x r e,
    h.prevs k,
    first_prev l x r h,
    a,
  );
  distinct = IsDistinct-append (x ∷ r) e a h.distinct;
}

pub append-Repr :
    (l : DList) (xs : List ℕ) (e : ℕ)
    → Repr l xs
    → contains xs e ≡ false
    → Repr (append l e) (xs ++ (e ∷ []))
unfolding append
append-Repr l xs e h a =
    subst (λ f. Repr (append_to l e f) (xs ++ (e ∷ []))) (sym h.at_head) (append_to-Repr l xs e h a)

unlink_only-Repr : (l : DList) (x : ℕ) → Repr l (x ∷ []) → Repr (unlink_only l x) []
unlink_only-Repr l x h = record {
  at_head = refl;
  nexts = λ k. ground (arith, h.nexts k);
  prevs = λ k. ground (arith, h.prevs k);
  distinct = tt;
}

unlink_first-Repr :
    (l : DList) (x y : ℕ) (r : List ℕ) → Repr l (x ∷ y ∷ r) → Repr (unlink_first l x) (y ∷ r)
unlink_first-Repr l x y r h =
    let n : l.next x ≡ some y = h.nexts x ∙ ground arith in
    let p : l.prev x ≡ some (last_of y r) = first_prev l x (y ∷ r) h in
    rw (n, p)
      (record {
        at_head = refl;
        nexts = λ k.
            let t : (y == y) ≡ true = ground arith in
            rw t (
              ground (
                arith,
                next_in-head x y y r k h.distinct.1,
                h.nexts k,
                contains-last_of y r,
                h.distinct.0,
                next_in-absent y (y ∷ r) x h.distinct.0,
              ));
        prevs = λ k.
            ground
              (arith, h.prevs k, h.distinct.0, prev_in-absent y r x (ground (arith, h.distinct.0)));
        distinct = h.distinct.1;
      })

pub pop_front-Repr :
    (l : DList) (x : ℕ) (r : List ℕ)
    → Repr l (x ∷ r)
    → (m : DList) × (pop_front l ≡ some (x, m)) × Repr m r
unfolding pop_front pop_first
pop_front-Repr l x [] h =
    let n : points_to (l.next x) x ≡ true = ground (arith, h.nexts x) in
    (unlink_only l x, ap (pop_first l) h.at_head ∙ rw (n, pop_first) refl, unlink_only-Repr l x h)
pop_front-Repr l x (y ∷ r) h =
    let n : points_to (l.next x) x ≡ false = ground (arith, h.nexts x, h.distinct.0) in
    (
      unlink_first l x,
      ap (pop_first l) h.at_head ∙ rw (n, pop_first) refl,
      unlink_first-Repr l x y r h,
    )
