-- ===== src/Service/Links/Adding.antt =====
-- Writes of new links into the adjacency lists of cdinit/dinit/src/includes/service.h.
use cdinit.Base.{
  contains-append, IsDistinct-append, ℕ, zero, suc, ◌+◌, ◌==◌, if◌then◌else◌, Bool, true, false,
  ◌||◌, ◌&&◌, not, ◌≡◌, refl, ap, ◌∙◌, List, [], ◌∷◌, ◌++◌, update, contains, arith,
}
use cdinit.Service.Types.{DependencyType, Graph, World}
use cdinit.Service.State.{to, is_ordering_type, is_regular, set_holding_acq}
use cdinit.Service.Start.{require}
use cdinit.Service.Links.{insert_at, with_link, link_services, add_dep, start_dep, is_up}
use cdinit.Service.Refs.Defs.{Owes, IsGraph, IsDistinct, held, held-update_absent}
use cdinit.Service.Refs.Writes.{take_hold-Owes}
use cdinit.Service.Refs.Stopping.{if-Owes}
use cdinit.Service.Refs.Starting.{require-Owes}
use cdinit.Service.Refs.Requiring.{to_dependents, holding-require}

contains-insert_at :
    (i : ℕ) (ls : List ℕ) (l k : ℕ) → contains (insert_at i l ls) k ≡ contains ls k || l == k
contains-insert_at zero ls l k = ground arith
contains-insert_at (suc i) [] l k = ground arith
contains-insert_at (suc i) (x ∷ ls) l k = ground (arith, contains-insert_at i ls l k)

IsDistinct-insert_at :
    (i : ℕ) (ls : List ℕ) (l : ℕ)
    → contains ls l ≡ false
    → IsDistinct ls
    → IsDistinct (insert_at i l ls)
IsDistinct-insert_at zero ls l a d = (a, d)
IsDistinct-insert_at (suc i) [] l a d = (refl, tt)
IsDistinct-insert_at (suc i) (x ∷ ls) l a d = (
  ground (arith, contains-insert_at i ls l x, d.0),
  IsDistinct-insert_at i ls l (ground (arith, a)) d.1,
)

if-IsDistinct :
    (b : Bool) (x y : List ℕ) → IsDistinct x → IsDistinct y → IsDistinct (if b then x else y)
if-IsDistinct true x y h k = h
if-IsDistinct false x y h k = k

held-append :
    (h : ℕ → Bool) (ls : List ℕ) (l : ℕ)
    → held h (ls ++ (l ∷ [])) ≡ held h ls + (if h l then 1 else 0)
held-append h [] l = ground arith
held-append h (x ∷ ls) l = ground (arith, held-append h ls l)

-- A number that no list has.
pub record IsFresh (l : ℕ) (g : Graph) : Type 0 where
  pub no_dependent : (s : ℕ) → contains (g.dependents s) l ≡ false
  pub no_dependency : (s : ℕ) → contains (g.depends_on s) l ≡ false

module _ (l s t : ℕ) (type : DependencyType) (i : ℕ) {g : Graph} (v : IsGraph g)
    (f : IsFresh l g) where
  with_link-IsGraph : IsGraph (with_link l s t type i g)
  with_link-IsGraph = record {
    own = λ u k. ground (arith, v.own u k, f.no_dependent u, contains-append (g.dependents t) l k);
    once = λ u.
        if-IsDistinct (u == t) (g.dependents t ++ (l ∷ [])) (g.dependents u)
          (IsDistinct-append (g.dependents t) l (f.no_dependent t) (v.once t)) (v.once u);
    once_on = λ u.
        if-IsDistinct (u == s) (insert_at i l (g.depends_on s)) (g.depends_on u)
          (IsDistinct-insert_at i (g.depends_on s) l (f.no_dependency s) (v.once_on s))
          (v.once_on u);
    listed = λ u k. ground (
      arith,
      contains-insert_at i (g.depends_on s) l k,
      contains-append (g.dependents t) l k,
      v.listed u k,
      v.listed s k,
      f.no_dependency u,
    );
  }

  link_services-Owes :
      {w : World} → Owes g [] w → Owes (with_link l s t type i g) [] (link_services l s t type i w)
  unfolding link_services
  link_services-Owes {w} h = record {
    same_graph = ap (with_link l s t type i) h.same_graph;
    counted = λ u. ground (
      arith,
      h.counted u,
      held-append (update w.holding_acq l false) (g.dependents t) l,
      held-update_absent w.holding_acq l false (g.dependents t) (f.no_dependent t),
      held-update_absent w.holding_acq l false (g.dependents u) (f.no_dependent u),
    );
  }

  unheld : (w : World) → (link_services l s t type i w).holding_acq l ≡ false
  unfolding link_services
  unheld w = ground arith

  linked : contains ((with_link l s t type i g).dependents t) l ≡ true
  linked = ground (arith, contains-append (g.dependents t) l l)

  -- The adjacency lists of the links agree with each other, and the new link is in none.
  -- Then `add_dep` adds it so that they agree again, and if every `required_by` is the
  -- explicit activation plus the links that hold the service, the same is so after.
  pub add_dep-Owes :
      (w : World)
      → Owes g [] w
      → IsGraph (with_link l s t type i g)
        × Owes (with_link l s t type i g) [] (add_dep l s t type i w)
  unfolding add_dep
  add_dep-Owes w h =
      let w1 = link_services l s t type i w in
      let k = link_services-Owes h in
      let wanted = is_regular type || is_up (w1.svc t).service_state in
      (
        with_link-IsGraph,
        if-Owes (not (is_ordering_type type) && wanted && is_up (w1.svc s).service_state)
            (set_holding_acq l true (require t w1)) w1
            (λ _.
              take_hold-Owes with_link-IsGraph t l linked
                (holding-require with_link-IsGraph t w1 l ∙ unheld w) (require-Owes t k))
            (λ _. k),
      )

-- The adjacency lists of the links agree with each other, and the link is a dependency of
-- the service. If every `required_by` is the explicit activation plus the links that hold
-- the service, the same is so after `start_dep`.
pub start_dep-Owes :
    {g : Graph}
    → IsGraph g
    → (s l : ℕ) (w : World) → contains (g.depends_on s) l ≡ true
    → Owes g [] w
    → Owes g [] (start_dep l w)
unfolding start_dep
start_dep-Owes {g} v s l w m h =
    if-Owes (w.holding_acq l) w (set_holding_acq l true (require (to l w) w)) (λ _. h)
      (λ e.
        take_hold-Owes v (to l w) l (to_dependents v s l m h) (holding-require v (to l w) w l ∙ e)
          (require-Owes (to l w) h))
