-- ===== src/Service/Refs/Ending.antt =====
-- The accounting of references through the ends of transitions in cdinit/dinit/src/service.cc.
use cdinit.Base.{ℕ, Bool, true, contains, ◌≡◌, Option, none, some, List, [], ◌∷◌}
use Prim.Native.String.{String}
use cdinit.Service.Types.{Graph, World}
use cdinit.Service.State.{Dispatch, to, each, is_hard}
use cdinit.Service.Stop.{break_soft}
use cdinit.Service.Transition.{
  dependent_stopped, start_found, queue_for_console, pull_console_queue, release_console, chain_to,
  become_inactive, finish_stopped, stopped, return_console, detach, detach_link, announce_started,
  failed_to_start, all_deps_started, take_console, wake_dependent, started, execute_transition,
}
use cdinit.Service.Refs.Defs.{Owes, IsGraph}
use cdinit.Service.Refs.Writes.{
  modify-Owes, emit-Owes, append_console_queue-Owes, service_inactive-Owes, each_dependent-Owes,
  each_dependency-Owes,
}
use cdinit.Service.Refs.Stopping.{
  writes, if-Owes, release_explicit-Owes, break_soft-Owes, dependency_started-Owes,
}
use cdinit.Service.Refs.Starting.{initiate_start-Owes, fail_start-Owes, start-Owes}
use cdinit.Service.Refs.DoStop.{Respects, RespectsAll, do_stop-Owes}

module _ {g : Graph} {p : List ℕ} where
  pub dependent_stopped-Owes : (s : ℕ) {w : World} → Owes g p w → Owes g p (dependent_stopped s w)
  unfolding dependent_stopped
  dependent_stopped-Owes s h = search writes depth 9

  pub wake_dependent-Owes :
      (d : Dispatch) (l : ℕ) {w : World} → Owes g p w → Owes g p (wake_dependent d l w)
  unfolding wake_dependent
  wake_dependent-Owes d l h = search (writes, dependency_started-Owes) depth 9

  pub queue_for_console-Owes : (s : ℕ) {w : World} → Owes g p w → Owes g p (queue_for_console s w)
  unfolding queue_for_console
  queue_for_console-Owes s h = search (modify-Owes, append_console_queue-Owes) depth 9

  pop_console-Owes :
      (rest : List ℕ) {w : World} → Owes g p w → Owes g p (record w { console_queue = rest })
  pop_console-Owes rest h = record { same_graph = h.same_graph; counted = h.counted }

module _ {g : Graph} (v : IsGraph g) (d : Dispatch) (c : Respects g d) {p : List ℕ} where
  pub start_found-Owes :
      (s : ℕ) (o : Option ℕ) {w : World} → Owes g p w → Owes g p (start_found d s o w)
  unfolding start_found
  start_found-Owes s none h = emit-Owes _ h
  start_found-Owes s (some t) h = start-Owes v t h

  pub chain_to-Owes :
      (s : ℕ) (o : Option String) {w : World} → Owes g p w → Owes g p (chain_to d s o w)
  unfolding chain_to
  chain_to-Owes s none h = h
  chain_to-Owes s (some name) h = start_found-Owes s _ h

  pub become_inactive-Owes : (s : ℕ) {w : World} → Owes g p w → Owes g p (become_inactive d s w)
  unfolding become_inactive
  become_inactive-Owes s h =
      search (if-Owes, release_explicit-Owes, service_inactive-Owes, c.becoming_inactive_keeps)
        depth 9

  pub finish_stopped-Owes :
      (will_restart : Bool) (s : ℕ) {w : World}
      → Owes g p w
      → Owes g p (finish_stopped d will_restart s w)
  unfolding finish_stopped
  finish_stopped-Owes will_restart s h = search (if-Owes, emit-Owes, chain_to-Owes) depth 9

  detach_link-Owes :
      (s l : ℕ) {w : World}
      → contains (g.dependents s) l ≡ true
      → Owes g p w
      → Owes g p (detach_link d s l w)
  unfolding detach_link
  detach_link-Owes s l {w} m h =
      if-Owes (is_hard l w) w (break_soft s l w) (λ _. h) (λ _. break_soft-Owes v s l m h)

  detach_all-Owes :
      (s : ℕ) {w : World} → Owes g p w → Owes g p (each (detach_link d s) (w.graph.dependents s) w)
  detach_all-Owes s h =
      each_dependent-Owes (detach_link d s) s (λ l u m k. detach_link-Owes s l m k) h

  pub detach-Owes :
      (will_restart : Bool) (s : ℕ) {w : World} → Owes g p w → Owes g p (detach d will_restart s w)
  unfolding detach
  detach-Owes will_restart s {w} h =
      each_dependency-Owes _ s (λ l u m k. dependent_stopped-Owes (to l u) k)
        (if-Owes will_restart w (each (detach_link d s) (w.graph.dependents s) w) (λ _. h)
          (λ _. detach_all-Owes s h))

module _ {g : Graph} (v : IsGraph g) (d : Dispatch) (c : RespectsAll g d) {p : List ℕ} where
  pull_console_queue-Owes : {w : World} → Owes g p w → Owes g p (pull_console_queue d w)
  unfolding pull_console_queue
  pull_console_queue-Owes {w} h = go w.console_queue
    where
      go : (q : List ℕ) → Owes g p (pull_console_queue d (record w { console_queue = q }))
      go [] = emit-Owes _ (emit-Owes _ (pop_console-Owes [] h))
      go (front ∷ rest) = c.acquired_console_keeps p front _ (pop_console-Owes rest h)

  release_console-Owes : (s : ℕ) {w : World} → Owes g p w → Owes g p (release_console d s w)
  unfolding release_console
  release_console-Owes s h = search (pull_console_queue-Owes, modify-Owes) depth 9

  return_console-Owes : (s : ℕ) {w : World} → Owes g p w → Owes g p (return_console d s w)
  unfolding return_console
  return_console-Owes s h = release_console-Owes s (emit-Owes _ h)

  -- The adjacency lists of the links agree with each other, and the virtual functions keep
  -- the accounts. Then `stopped` keeps the accounts: if in every service `required_by` is
  -- 1 for the explicit activation, plus the dependents' links that hold the service, plus
  -- what is still owed for it, the same is so after.
  pub stopped-Owes : (s : ℕ) {w : World} → Owes g p w → Owes g p (stopped d s w)
  unfolding stopped
  stopped-Owes s h =
      search
        (
          if-Owes,
          modify-Owes,
          return_console-Owes,
          detach-Owes v d c.within_stop,
          initiate_start-Owes,
          become_inactive-Owes v d c.within_stop,
          finish_stopped-Owes v d c.within_stop,
        )
        depth 14

  -- The adjacency lists of the links agree with each other, and the virtual functions keep
  -- the accounts. Then `failed_to_start` keeps the accounts: if in every service
  -- `required_by` is 1 for the explicit activation, plus the dependents' links that hold
  -- the service, plus what is still owed for it, the same is so after.
  pub failed_to_start-Owes :
      (depfailed : Bool) (s : ℕ) {w : World}
      → Owes g p w
      → Owes g p (failed_to_start d depfailed s w)
  unfolding failed_to_start
  failed_to_start-Owes depfailed s h = stopped-Owes s (fail_start-Owes v depfailed s h)

  all_deps_started-Owes : (s : ℕ) {w : World} → Owes g p w → Owes g p (all_deps_started d s w)
  unfolding all_deps_started
  all_deps_started-Owes s h =
      search (if-Owes, modify-Owes, queue_for_console-Owes, c.bring_up_keeps, failed_to_start-Owes)
        depth 12

  pub take_console-Owes : (s : ℕ) {w : World} → Owes g p w → Owes g p (take_console d s w)
  unfolding take_console
  take_console-Owes s h =
      search (if-Owes, modify-Owes, all_deps_started-Owes, release_console-Owes) depth 12

  wake_all-Owes :
      (s : ℕ) {w : World} → Owes g p w → Owes g p (each (wake_dependent d) (w.graph.dependents s) w)
  wake_all-Owes s h =
      each_dependent-Owes (wake_dependent d) s (λ l u m k. wake_dependent-Owes d l k) h

  announce_started-Owes : (s : ℕ) {w : World} → Owes g p w → Owes g p (announce_started d s w)
  unfolding announce_started
  announce_started-Owes s h = search (if-Owes, modify-Owes, emit-Owes, return_console-Owes) depth 14

  -- The adjacency lists of the links agree with each other, and the virtual functions keep
  -- the accounts. Then `started` keeps the accounts: if in every service `required_by` is
  -- 1 for the explicit activation, plus the dependents' links that hold the service, plus
  -- what is still owed for it, the same is so after.
  pub started-Owes : (s : ℕ) {w : World} → Owes g p w → Owes g p (started d s w)
  unfolding started
  started-Owes s h =
      search (if-Owes, announce_started-Owes, do_stop-Owes v d c.within_stop, wake_all-Owes) depth 9

  -- The adjacency lists of the links agree with each other, and the virtual functions keep
  -- the accounts. Then `execute_transition` keeps the accounts: if in every service
  -- `required_by` is 1 for the explicit activation, plus the dependents' links that hold
  -- the service, plus what is still owed for it, the same is so after: through the start
  -- of a service, its failure, and its stop.
  pub execute_transition-Owes :
      (s : ℕ) {w : World} → Owes g p w → Owes g p (execute_transition d s w)
  unfolding execute_transition
  execute_transition-Owes s h =
      search (if-Owes, modify-Owes, emit-Owes, all_deps_started-Owes, c.bring_down_keeps) depth 12
