-- ===== src/Service/Refs/Propagation.antt =====
-- The accounting of references through `do_propagation` of cdinit/dinit/src/service.cc.
use cdinit.Base.{ℕ, Bool, true, false, ◌≡◌, refl, ap, List, contains, Bool-cases, inl, inr}
use cdinit.Service.Types.{Graph, World}
use cdinit.Service.State.{Dispatch, each, modify, to}
use cdinit.Service.Propagation.{
  require_link, propagate_require, queue_pin, pass_pin, release_dependency, release_dependencies,
  propagate_release, propagate_failure, propagate_start, propagate_stop, change_dept_pin,
  propagate_pin, do_propagation,
}
use cdinit.Service.Refs.Defs.{Owes, Covered, IsGraph}
use cdinit.Service.Refs.Writes.{modify-Owes, let_go-Owes, each-keeps, each_dependency-Owes}
use cdinit.Service.Refs.Stopping.{writes, if-Owes}
use cdinit.Service.Refs.Starting.{do_start-Owes}
use cdinit.Service.Refs.DoStop.{Respects, RespectsAll, Covers, do_stop-Owes, release-Owes}
use cdinit.Service.Refs.Ending.{failed_to_start-Owes}
use cdinit.Service.Refs.Covering.{if-Covered_lem, modify-Covered, failed_to_start-Covered}
use cdinit.Service.Refs.Requiring.{IsUnheld, require_all-Owes, require_link-surplus, to_dependents}

module _ {g : Graph} {p : List ℕ} where
  pub queue_pin-Owes : (t : ℕ) {w : World} → Owes g p w → Owes g p (queue_pin t w)
  unfolding queue_pin
  queue_pin-Owes t h = search writes depth 9

  pass_pin-Owes : (b : Bool) (l : ℕ) {w : World} → Owes g p w → Owes g p (pass_pin b l w)
  unfolding pass_pin
  pass_pin-Owes b l h = search (if-Owes, queue_pin-Owes) depth 9

  pass_all-Owes :
      (b : Bool) (s : ℕ) {w : World}
      → Owes g p w
      → Owes g p (each (pass_pin b) (w.graph.depends_on s) w)
  pass_all-Owes b s h = each_dependency-Owes _ s (λ l u m k. pass_pin-Owes b l k) h

module _ {g : Graph} (v : IsGraph g) (d : Dispatch) (c : Respects g d) {p : List ℕ} where
  release_dependency-Owes :
      (s l : ℕ) {w : World}
      → contains (g.depends_on s) l ≡ true
      → Owes g p w
      → Owes g p (release_dependency d l w)
  unfolding release_dependency
  release_dependency-Owes s l {w} m h =
      if-Owes (w.holding_acq l) _ w
        (λ e. release-Owes v d c (to l w) (let_go-Owes v (to l w) l (to_dependents v s l m h) e h))
        (λ _. h)

  release_dependencies-Owes :
      (s : ℕ) {w : World} → Owes g p w → Owes g p (release_dependencies d s w)
  unfolding release_dependencies
  release_dependencies-Owes s h =
      each_dependency-Owes _ s (λ l u m k. release_dependency-Owes s l m k) h

  propagate_release-Owes : (s : ℕ) {w : World} → Owes g p w → Owes g p (propagate_release d s w)
  unfolding propagate_release
  propagate_release-Owes s h = search (if-Owes, modify-Owes, release_dependencies-Owes) depth 9

  propagate_start-Owes : (s : ℕ) {w : World} → Owes g p w → Owes g p (propagate_start d s w)
  unfolding propagate_start
  propagate_start-Owes s h = search (if-Owes, modify-Owes, do_start-Owes v) depth 9

  propagate_stop-Owes : (s : ℕ) {w : World} → Owes g p w → Owes g p (propagate_stop d s w)
  unfolding propagate_stop
  propagate_stop-Owes s h = search (if-Owes, modify-Owes, do_stop-Owes v d c) depth 9

  change_dept_pin-Owes :
      (b : Bool) (s : ℕ) {w : World} → Owes g p w → Owes g p (change_dept_pin d b s w)
  unfolding change_dept_pin
  change_dept_pin-Owes b s h =
      search (if-Owes, modify-Owes, pass_all-Owes, do_stop-Owes v d c) depth 12

  propagate_pin-Owes : (s : ℕ) {w : World} → Owes g p w → Owes g p (propagate_pin d s w)
  unfolding propagate_pin
  propagate_pin-Owes s h = search (if-Owes, change_dept_pin-Owes) depth 9

  ending-Owes :
      (s : ℕ) {w : World}
      → Owes g p w
      → Owes g p (propagate_pin d s (propagate_stop d s (propagate_start d s w)))
  ending-Owes s h = propagate_pin-Owes s (propagate_stop-Owes s (propagate_start-Owes s h))

module _ {g : Graph} (v : IsGraph g) (d : Dispatch) (c : RespectsAll g d) {p : List ℕ} where
  propagate_failure-Owes : (s : ℕ) {w : World} → Owes g p w → Owes g p (propagate_failure d s w)
  unfolding propagate_failure
  propagate_failure-Owes s h = search (if-Owes, modify-Owes, failed_to_start-Owes v d c) depth 9

  -- `do_propagation` after its first part.
  rest-Owes :
      (s : ℕ) (w : World) → Owes g p (propagate_require s w) → Owes g p (do_propagation d s w)
  unfolding do_propagation
  rest-Owes s w h =
      ending-Owes v d c.within_stop s
        (propagate_failure-Owes s (propagate_release-Owes v d c.within_stop s h))

  -- The adjacency lists of the links agree with each other, and the virtual functions keep
  -- the accounts. Then `do_propagation` keeps the accounts: if in every service
  -- `required_by` is 1 for the explicit activation, plus the dependents' links that hold
  -- the service, plus what is still owed for it, the same is so after, if no dependency
  -- that is about to be required is held already.
  pub do_propagation-Owes :
      (s : ℕ) {w : World}
      → ((w.svc s).prop_require ≡ true → IsUnheld g w.holding_acq (g.depends_on s))
      → Owes g p w
      → Owes g p (do_propagation d s w)
  unfolding propagate_require
  do_propagation-Owes s {w} unheld h = rest-Owes s w (
      if-Owes (w.svc s).prop_require
        (modify s (λ x. record x { prop_require = false })
          (each require_link (w.graph.depends_on s) w))
        w
        (λ e.
          modify-Owes s _ (λ x. refl) (λ x. refl)
            (rw (ap (λ k. k.depends_on s) h.same_graph)
              (require_all-Owes v s (g.depends_on s) (λ l m. m) (v.once_on s) (unheld e) h)))
        (λ _. h))

module _ {g : Graph} (v : IsGraph g) {p : List ℕ} where
  each_require-Covered :
      (s : ℕ) {w : World} → Owes g p w → Covered g (each require_link (w.graph.depends_on s) w)
  each_require-Covered s {w} h = rw (ap (λ k. k.depends_on s) h.same_graph) (
      each-keeps (Covered g) require_link (g.depends_on s) w
        (λ l u m k. require_link-surplus v s l m k.1) (p, h))

  propagate_require-Covered : (s : ℕ) {w : World} → Owes g p w → Covered g (propagate_require s w)
  unfolding propagate_require
  propagate_require-Covered s {w} h = elim (Bool-cases (w.svc s).prop_require) [
    | inl e ↦
        let (q, k) = each_require-Covered s h in
        rw (e, propagate_require) (q, modify-Owes s _ (λ x. refl) (λ x. refl) k)
    | inr e ↦ rw (e, propagate_require) (p, h)
  ]

module _ {g : Graph} (v : IsGraph g) (d : Dispatch) (c : Covers g d) where
  propagate_failure-Covered :
      (s : ℕ) {w : World} → Covered g w → Covered g (propagate_failure d s w)
  unfolding propagate_failure
  propagate_failure-Covered s h =
      search (if-Covered_lem, modify-Covered, failed_to_start-Covered v d c) depth 9

  -- The adjacency lists of the links agree with each other, and the virtual functions keep
  -- the accounts up to a surplus. Then so does `do_propagation`.
  pub do_propagation-Covered : (s : ℕ) (w : World) → Covered g w → Covered g (do_propagation d s w)
  unfolding do_propagation
  do_propagation-Covered s w h =
      let (q, k) = propagate_require-Covered v s h.1 in
      let (r, m) = propagate_failure-Covered s (q, propagate_release-Owes v d c.within_stop s k) in
      (r, ending-Owes v d c.within_stop s m)
