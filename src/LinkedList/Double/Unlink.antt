-- ===== src/LinkedList/Double/Unlink.antt =====
-- The removal of any element from a `dlist` of cdinit/dinit/src/includes/dinit-ll.h.
use cdinit.Base.{
  ℕ, ◌==◌, if◌then◌else◌, Bool, true, false, Option, none, some, List, [], ◌∷◌, contains, update,
  arith, ◌≡◌, refl, ap, sym, ◌∙◌, subst, Bool-cases, inl, inr,
}
use cdinit.LinkedList.{points_to}
use cdinit.LinkedList.Double.{DList, write, unlink}
use cdinit.LinkedList.Double.Circle.{
  last_of, contains-last_of, next_in-head, next_in-absent, prev_in-absent,
}
use cdinit.LinkedList.Double.Refine.{Repr, first_prev}
use cdinit.LinkedList.Double.Without.{
  without, next_in-without, last_of-without, prev_in-without, absent-without, IsDistinct-without,
}

write-at :
    (f : ℕ → Option ℕ) (o v : Option ℕ) (k : ℕ) → write f o v k ≡ (if points_to o k then v else f k)
write-at f none v k = refl
write-at f (some j) v k = ground arith

module _ (l : DList) (e : ℕ) where
  -- The pointers that `unlink` leaves, from those of the element.
  unlinked_next :
      (k : ℕ)
      → (unlink l e).next k
        ≡ (if k == e then none else (if points_to (l.prev e) k then l.next e else l.next k))
  unfolding unlink
  unlinked_next k =
      let p : write l.prev (l.next e) (l.prev e) e ≡ l.prev e =
        write-at l.prev (l.next e) (l.prev e) e ∙ same (points_to (l.next e) e) (l.prev e) in
      ap (λ o. update (write l.next o (l.next e)) e none k) p
      ∙ ap (λ v. if k == e then none else v) (write-at l.next (l.prev e) (l.next e) k)
    where
      same : (b : Bool) (v : Option ℕ) → (if b then v else v) ≡ v
      same true v = refl
      same false v = refl

  unlinked_prev :
      (k : ℕ)
      → (unlink l e).prev k
        ≡ (if k == e then none else (if points_to (l.next e) k then l.prev e else l.prev k))
  unfolding unlink
  unlinked_prev k = ap (λ v. if k == e then none else v) (write-at l.prev (l.next e) (l.prev e) k)

  unlink_single : Repr l (e ∷ []) → Repr (unlink l e) []
  unfolding unlink
  unlink_single h = record {
    at_head = ground (arith, h.at_head, h.nexts e);
    nexts = λ k. unlinked_next k ∙ ground (arith, h.nexts k, h.prevs e);
    prevs = λ k. unlinked_prev k ∙ ground (arith, h.prevs k, h.nexts e);
    distinct = tt;
  }

  unlink_head : (y : ℕ) (r : List ℕ) → Repr l (e ∷ y ∷ r) → Repr (unlink l e) (y ∷ r)
  unfolding unlink
  unlink_head y r h = record {
    at_head = ground (arith, h.at_head, h.nexts e, h.distinct.0);
    nexts = λ k.
        unlinked_next k
        ∙ rw (p, n)
            (ground (
              arith,
              next_in-head e y y r k h.distinct.1,
              h.nexts k,
              contains-last_of y r,
              h.distinct.0,
              next_in-absent y (y ∷ r) e h.distinct.0,
            ));
    prevs = λ k.
        unlinked_prev k
        ∙ rw (n, p)
            (ground (
              arith,
              h.prevs k,
              h.distinct.0,
              prev_in-absent y r e (ground (arith, h.distinct.0)),
            ));
    distinct = h.distinct.1;
  }
    where
      n : l.next e ≡ some y
      n = h.nexts e ∙ ground arith

      p : l.prev e ≡ some (last_of y r)
      p = first_prev l e (y ∷ r) h

  unlink_inner :
      (x : ℕ) (r : List ℕ)
      → Repr l (x ∷ r)
      → (x == e) ≡ false
      → contains r e ≡ true
      → Repr (unlink l e) (x ∷ without e r)
  unfolding unlink
  unlink_inner x r h n c = record {
    at_head = ground (arith, h.at_head, n);
    nexts = λ k.
        unlinked_next k
        ∙ rw (h.prevs e, h.nexts e, h.nexts k)
            (sym (next_in-without x (last_of x r) x r e k h.distinct n c));
    prevs = λ k.
        unlinked_prev k
        ∙ rw (h.prevs e, h.nexts e, h.prevs k)
            (elim (Bool-cases (x == k)) [
              | inl t ↦ ground (
                arith,
                t,
                n,
                h.distinct.0,
                last_of-without x (last_of x r) x r e h.distinct h.distinct.0 n c,
              )
              | inr m ↦ rw m (
                  ground (
                    arith,
                    m,
                    n,
                    prev_in-without x (last_of x r) (last_of x (without e r)) x r e k h.distinct
                        h.distinct.0 n c m,
                  ))
            ]);
    distinct = (absent-without e r x h.distinct.0, IsDistinct-without e r h.distinct.1);
  }

pub unlink-Repr :
    (l : DList) (xs : List ℕ) (e : ℕ)
    → Repr l xs
    → contains xs e ≡ true
    → Repr (unlink l e) (without e xs)
unlink-Repr l [] e h c = absurd (cc)
unlink-Repr l (x ∷ r) e h c = elim (Bool-cases (x == e)) [
  | inl t ↦ let p : x ≡ e = ground (arith, t) in rw t (unlinked r (subst (λ z. Repr l (z ∷ r)) p h))
  | inr n ↦ rw n (unlink_inner l e x r h n (ground (arith, c, n)))
]
  where
    unlinked : (r : List ℕ) → Repr l (e ∷ r) → Repr (unlink l e) r
    unlinked [] h = unlink_single l e h
    unlinked (y ∷ r) h = unlink_head l e y r h
