-- ===== src/Service/Links/Removing.antt =====
-- `rm_dep` of cdinit/dinit/src/includes/service.h, and the adjacency lists without a link.
use cdinit.Base.{
  ℕ, ◌+◌, ◌==◌, if◌then◌else◌, Bool, true, false, ◌&&◌, not, ◌≡◌, refl, ap, List, [], ◌∷◌, update,
  contains, arith, Bool-cases, inl, inr,
}
use cdinit.Service.Types.{Graph, World}
use cdinit.Service.State.{Dispatch, to, remove}
use cdinit.Service.DoStop.{release}
use cdinit.Service.Links.{without_link, unlink_services, rm_dep}
use cdinit.Service.Refs.Defs.{Owes, IsGraph, IsDistinct, held, held-update_absent}
use cdinit.Service.Refs.Writes.{absent_elsewhere}
use cdinit.Service.Refs.Stopping.{if-Owes}
use cdinit.Service.Refs.DoStop.{Respects, release-Owes}

contains-remove :
    (ls : List ℕ) (l k : ℕ)
    → IsDistinct ls
    → contains (remove ls l) k ≡ contains ls k && not (l == k)
contains-remove [] l k d = refl
contains-remove (x ∷ ls) l k d = ground (arith, contains-remove ls l k d.1, d.0)

if-IsDistinct :
    (b : Bool) (x y : List ℕ) → IsDistinct x → IsDistinct y → IsDistinct (if b then x else y)
if-IsDistinct true x y h k = h
if-IsDistinct false x y h k = k

IsDistinct-remove : (ls : List ℕ) (l : ℕ) → IsDistinct ls → IsDistinct (remove ls l)
IsDistinct-remove [] l d = d
IsDistinct-remove (x ∷ ls) l d =
    if-IsDistinct (x == l) ls (x ∷ remove ls l) d.1
      (ground (arith, contains-remove ls l x d.1, d.0), IsDistinct-remove ls l d.1)

held-remove :
    (h : ℕ → Bool) (l : ℕ) (ls : List ℕ)
    → contains ls l ≡ true
    → held h ls ≡ (if h l then 1 else 0) + held h (remove ls l)
held-remove h l [] m = absurd (ground (arith, m))
held-remove h l (x ∷ ls) m = ground (arith, held-remove h l ls, m)

module _ (s l : ℕ) {g : Graph} (v : IsGraph g) (m : contains (g.depends_on s) l ≡ true)
    (only : (u : ℕ) → contains (g.depends_on u) l ≡ true → u ≡ s) where
  without_link-IsGraph : IsGraph (without_link s l g)
  without_link-IsGraph = record {
    own = λ u k.
        ground (
          arith,
          v.own u k,
          contains-remove (g.dependents (g.link l).to) l k (v.once (g.link l).to),
        );
    once = λ u.
        if-IsDistinct (u == (g.link l).to) (remove (g.dependents (g.link l).to) l) (g.dependents u)
          (IsDistinct-remove (g.dependents (g.link l).to) l (v.once (g.link l).to)) (v.once u);
    once_on = λ u.
        if-IsDistinct (u == s) (remove (g.depends_on s) l) (g.depends_on u)
          (IsDistinct-remove (g.depends_on s) l (v.once_on s)) (v.once_on u);
    listed = λ u k. ground (
      arith,
      contains-remove (g.depends_on s) l k (v.once_on s),
      contains-remove (g.dependents (g.link l).to) l k (v.once (g.link l).to),
      v.listed u k,
      v.listed s k,
      only u,
    );
  }

  -- The count of the links of `u` that hold it, when `l` goes.
  held_without :
      (h : ℕ → Bool) (u : ℕ)
      → held h (g.dependents u)
        ≡ (if u == (g.link l).to && h l then 1 else 0)
          + held (update h l false) ((without_link s l g).dependents u)
  held_without h u =
      let t = (g.link l).to in
      elim (Bool-cases (u == t)) [
        | inl e ↦ ground (
          arith,
          e,
          held-remove h l (g.dependents t) (v.listed s l m),
          held-update_absent h l false (remove (g.dependents t) l),
          contains-remove (g.dependents t) l l (v.once t),
        )
        | inr e ↦
            ground
              (arith, e, held-update_absent h l false (g.dependents u), absent_elsewhere g v l u)
      ]

  unlink_held :
      {w : World}
      → w.holding_acq l ≡ true
      → Owes g [] w
      → Owes (without_link s l g) ((g.link l).to ∷ []) (unlink_services s l w)
  unfolding unlink_services
  unlink_held {w} e h = record {
    same_graph = ap (without_link s l) h.same_graph;
    counted = λ u. ground (arith, e, h.counted u, held_without w.holding_acq u);
  }

  unlink_free :
      {w : World}
      → w.holding_acq l ≡ false
      → Owes g [] w
      → Owes (without_link s l g) [] (unlink_services s l w)
  unfolding unlink_services
  unlink_free {w} e h = record {
    same_graph = ap (without_link s l) h.same_graph;
    counted = λ u. ground (arith, e, h.counted u, held_without w.holding_acq u);
  }

  -- The adjacency lists of the links agree with each other, the link is among the
  -- dependencies of the service and of no other, and the virtual functions that a stop
  -- calls keep the accounts without it. Then `rm_dep` removes it so that the lists agree
  -- again, and if every `required_by` is the explicit activation plus the links that hold
  -- the service, the same is so after.
  pub rm_dep-Owes :
      (d : Dispatch)
      → Respects (without_link s l g) d
      → (w : World) → Owes g [] w
      → IsGraph (without_link s l g) × Owes (without_link s l g) [] (rm_dep d s l w)
  unfolding rm_dep
  rm_dep-Owes d c w h = (
    without_link-IsGraph,
    if-Owes (w.holding_acq l) (release d (to l w) (unlink_services s l w)) (unlink_services s l w)
        (λ e.
          rw (ap (λ k. (k.link l).to) h.same_graph)
            (release-Owes without_link-IsGraph d c (g.link l).to (unlink_held e h)))
        (λ e. unlink_free e h),
  )
