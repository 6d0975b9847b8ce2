-- ===== src/Service/Refs/Starting.antt =====
-- The accounting of references through the starting of services in cdinit/dinit/src/service.cc.
use cdinit.Base.{ℕ, Bool, true, false, not, ◌&&◌, ◌||◌, arith, ◌≡◌, List, ◌∷◌, contains}
use cdinit.Service.Types.{Graph, World, increment, is_started, is_starting}
use cdinit.Service.State.{each, from, is_hard, modify, set_holding_acq}
use cdinit.Service.Start.{
  require, check_dependency, check_ordering, start_check_dependencies, initiate_start,
  fail_dependent, fail_link, leave_console_queue, fail_start, reattach, start_active,
  start_inactive, do_start, start,
}
use cdinit.Service.Refs.Defs.{Owes, IsGraph}
use cdinit.Service.Refs.Writes.{
  modify-Owes, set_waiting_on-Owes, emit-Owes, service_active-Owes, increment-Owes, take_hold-Owes,
  each_all-keeps, each_dependent-Owes, set_explicit-Owes,
}
use cdinit.Service.Refs.Stopping.{
  writes, if-Owes, if-pair-Owes, release_explicit-Owes, release_link-Owes, stop_waiting-Owes,
}

module _ {g : Graph} {p : List ℕ} where
  -- `require` takes a reference that the caller has yet to record.
  pub require-Owes : (s : ℕ) {w : World} → Owes g p w → Owes g (s ∷ p) (require s w)
  unfolding require
  require-Owes s h = search (writes, increment-Owes) depth 9

  check_dependency-Owes : (l : ℕ) (w : World) → Owes g p w → Owes g p (check_dependency l w).1
  unfolding check_dependency
  check_dependency-Owes l w h = search (if-pair-Owes, set_waiting_on-Owes) depth 9

  check_ordering-Owes : (l : ℕ) (w : World) → Owes g p w → Owes g p (check_ordering l w)
  unfolding check_ordering
  check_ordering-Owes l w h = search writes depth 9

  start_check_dependencies-Owes :
      (s : ℕ) {w : World} → Owes g p w → Owes g p (start_check_dependencies s w).1
  unfolding start_check_dependencies
  start_check_dependencies-Owes s {w} h =
      each_dependent-Owes check_ordering s (λ l u m k. check_ordering-Owes l u k)
        (each_all-keeps (Owes g p) check_dependency (w.graph.depends_on s) w
          (λ l u m k. check_dependency-Owes l u k) h)

  pub initiate_start-Owes : (s : ℕ) {w : World} → Owes g p w → Owes g p (initiate_start s w)
  unfolding initiate_start
  initiate_start-Owes s h = search (writes, start_check_dependencies-Owes) depth 9

  fail_dependent-Owes : (t : ℕ) {w : World} → Owes g p w → Owes g p (fail_dependent t w)
  unfolding fail_dependent
  fail_dependent-Owes t h = search writes depth 9

  leave_console_queue-Owes : (s : ℕ) {w : World} → Owes g p w → Owes g p (leave_console_queue s w)
  unfolding leave_console_queue
  leave_console_queue-Owes s h = search writes depth 9

  start_active-Owes : (s : ℕ) {w : World} → Owes g p w → Owes g p (start_active s w)
  unfolding start_active
  start_active-Owes s h = search (writes, initiate_start-Owes) depth 9

module _ {g : Graph} (v : IsGraph g) {p : List ℕ} where
  fail_link-Owes :
      (s l : ℕ) (w : World)
      → contains (g.dependents s) l ≡ true
      → Owes g p w
      → Owes g p (fail_link s l w)
  unfolding fail_link
  fail_link-Owes s l w m h =
      release_link-Owes v s l m (search (if-Owes, fail_dependent-Owes, stop_waiting-Owes) depth 6)

  fail_links-Owes :
      (s : ℕ) {w : World} → Owes g p w → Owes g p (each (fail_link s) (w.graph.dependents s) w)
  fail_links-Owes s h = each_dependent-Owes (fail_link s) s (fail_link-Owes s) h

  pub fail_start-Owes :
      (depfailed : Bool) (s : ℕ) {w : World} → Owes g p w → Owes g p (fail_start depfailed s w)
  unfolding fail_start
  fail_start-Owes depfailed s h =
      search
        (modify-Owes, emit-Owes, fail_links-Owes, release_explicit-Owes, leave_console_queue-Owes)
        depth 14

  reattach_hold-Owes :
      (s l : ℕ) {w : World}
      → contains (g.dependents s) l ≡ true
      → w.holding_acq l ≡ false
      → Owes g p w
      → Owes g p (
          modify s
            (λ y. record y { required_by = increment y.required_by })
            (set_holding_acq l true w))
  unfolding modify set_holding_acq
  reattach_hold-Owes s l m e h = take_hold-Owes v s l m e (increment-Owes s h)

  reattach-Owes :
      (s l : ℕ) (w : World)
      → contains (g.dependents s) l ≡ true
      → Owes g p w
      → Owes g p (reattach s l w)
  unfolding reattach
  reattach-Owes s l w m h =
      if-Owes
        (not (is_hard l w)
          && (not (w.holding_acq l)
              && (is_started (w.svc (from l w)).service_state
                  || is_starting (w.svc (from l w)).service_state)))
        (modify s (λ y. record y { required_by = increment y.required_by })
          (set_holding_acq l true w))
        w (λ e. reattach_hold-Owes s l m (ground arith) h) (λ _. h)

  reattach_all-Owes :
      (s : ℕ) {w : World} → Owes g p w → Owes g p (each (reattach s) (w.graph.dependents s) w)
  reattach_all-Owes s h = each_dependent-Owes (reattach s) s (reattach-Owes s) h

  start_inactive-Owes : (s : ℕ) {w : World} → Owes g p w → Owes g p (start_inactive s w)
  unfolding start_inactive
  start_inactive-Owes s h =
      search (writes, initiate_start-Owes, service_active-Owes, reattach_all-Owes) depth 14

  pub do_start-Owes : (s : ℕ) {w : World} → Owes g p w → Owes g p (do_start s w)
  unfolding do_start
  do_start-Owes s h =
      search (if-Owes, modify-Owes, fail_start-Owes, start_active-Owes, start_inactive-Owes) depth
        14

  -- The adjacency lists of the links agree with each other. Then `start` keeps the
  -- accounts: if in every service `required_by` is 1 for the explicit activation, plus the
  -- dependents' links that hold the service, plus what is still owed for it, the same is
  -- so after.
  pub start-Owes : (s : ℕ) {w : World} → Owes g p w → Owes g p (start s w)
  unfolding start
  start-Owes s h = search (if-Owes, do_start-Owes, set_explicit-Owes) depth 14
