-- ===== src/Service/Refs/Covering.antt =====
-- The accounting of references, up to a surplus, through the ends of transitions in
-- cdinit/dinit/src/service.cc, where the virtual functions may process the queues.
use cdinit.Base.{ℕ, if◌then◌else◌, Bool, true, false, ◌≡◌, refl, List, [], ◌∷◌}
use cdinit.Service.Types.{Graph, World, Service, Output}
use cdinit.Service.State.{Dispatch, each, emit, modify}
use cdinit.Service.Start.{initiate_start, fail_start}
use cdinit.Service.DoStop.{do_stop}
use cdinit.Service.Transition.{
  queue_for_console, pull_console_queue, release_console, become_inactive, finish_stopped, stopped,
  return_console, detach, announce_started, failed_to_start, all_deps_started, take_console,
  wake_dependent, started, execute_transition,
}
use cdinit.Service.Refs.Defs.{Covered, IsGraph}
use cdinit.Service.Refs.Writes.{modify-Owes, emit-Owes, each_dependent-Owes}
use cdinit.Service.Refs.Starting.{initiate_start-Owes, fail_start-Owes}
use cdinit.Service.Refs.DoStop.{Covers, do_stop-Owes}
use cdinit.Service.Refs.Ending.{
  queue_for_console-Owes, become_inactive-Owes, finish_stopped-Owes, detach-Owes,
  wake_dependent-Owes,
}

pub if-Covered_lem :
    {g : Graph} (b : Bool) (x y : World)
    → (b ≡ true → Covered g x)
    → (b ≡ false → Covered g y)
    → Covered g (if b then x else y)
if-Covered_lem true x y h k = h refl
if-Covered_lem false x y h k = k refl

pub if-pair-Covered :
    {g : Graph} (b : Bool) (x y : Bool × World)
    → (b ≡ true → Covered g x.1)
    → (b ≡ false → Covered g y.1)
    → Covered g (if b then x else y).1
if-pair-Covered true x y h k = h refl
if-pair-Covered false x y h k = k refl

module _ {g : Graph} {w : World} where
  pub emit-Covered : (o : Output) → Covered g w → Covered g (emit o w)
  emit-Covered o h = (h.0, emit-Owes o h.1)

  pub modify-Covered :
      (s : ℕ) (f : Service → Service)
      → ((x : Service) → (f x).required_by ≡ x.required_by)
      → ((x : Service) → (f x).start_explicit ≡ x.start_explicit)
      → Covered g w
      → Covered g (modify s f w)
  modify-Covered s f r e h = (h.0, modify-Owes s f r e h.1)

  queue_for_console-Covered : (s : ℕ) → Covered g w → Covered g (queue_for_console s w)
  queue_for_console-Covered s h = (h.0, queue_for_console-Owes s h.1)

  pub initiate_start-Covered : (s : ℕ) → Covered g w → Covered g (initiate_start s w)
  initiate_start-Covered s h = (h.0, initiate_start-Owes s h.1)

  pop_console-Covered :
      (rest : List ℕ) → Covered g w → Covered g (record w { console_queue = rest })
  pop_console-Covered rest h = (h.0, record { same_graph = h.1.same_graph; counted = h.1.counted })

pub ruleset world_covered = (if-Covered_lem, if-pair-Covered, emit-Covered, modify-Covered)

module _ {g : Graph} (v : IsGraph g) (d : Dispatch) (c : Covers g d) where
  pub do_stop-Covered : (b : Bool) (s : ℕ) (w : World) → Covered g w → Covered g (do_stop d b s w)
  do_stop-Covered b s w h = (h.0, do_stop-Owes v d c.within_stop b s w h.1)

  pub fail_start-Covered :
      (b : Bool) (s : ℕ) {w : World} → Covered g w → Covered g (fail_start b s w)
  fail_start-Covered b s h = (h.0, fail_start-Owes v b s h.1)

  become_inactive-Covered : (s : ℕ) {w : World} → Covered g w → Covered g (become_inactive d s w)
  become_inactive-Covered s h = (h.0, become_inactive-Owes v d c.within_stop s h.1)

  finish_stopped-Covered :
      (b : Bool) (s : ℕ) {w : World} → Covered g w → Covered g (finish_stopped d b s w)
  finish_stopped-Covered b s h = (h.0, finish_stopped-Owes v d c.within_stop b s h.1)

  detach-Covered : (b : Bool) (s : ℕ) {w : World} → Covered g w → Covered g (detach d b s w)
  detach-Covered b s h = (h.0, detach-Owes v d c.within_stop b s h.1)

  wake_all-Covered :
      (s : ℕ) {w : World}
      → Covered g w
      → Covered g (each (wake_dependent d) (w.graph.dependents s) w)
  wake_all-Covered s h =
      (h.0, each_dependent-Owes (wake_dependent d) s (λ l u m k. wake_dependent-Owes d l k) h.1)

  pull_console_queue-Covered : {w : World} → Covered g w → Covered g (pull_console_queue d w)
  unfolding pull_console_queue
  pull_console_queue-Covered {w} h = go w.console_queue
    where
      go : (q : List ℕ) → Covered g (pull_console_queue d (record w { console_queue = q }))
      go [] = emit-Covered _ (emit-Covered _ (pop_console-Covered [] h))
      go (front ∷ rest) = c.acquired_console_covers front _ (pop_console-Covered rest h)

  release_console-Covered : (s : ℕ) {w : World} → Covered g w → Covered g (release_console d s w)
  unfolding release_console
  release_console-Covered s h = search (pull_console_queue-Covered, modify-Covered) depth 9

  return_console-Covered : (s : ℕ) {w : World} → Covered g w → Covered g (return_console d s w)
  unfolding return_console
  return_console-Covered s h = release_console-Covered s (emit-Covered _ h)

  pub stopped-Covered : (s : ℕ) {w : World} → Covered g w → Covered g (stopped d s w)
  unfolding stopped
  stopped-Covered s h =
      search
        (
          world_covered, return_console-Covered, detach-Covered, initiate_start-Covered,
          become_inactive-Covered, finish_stopped-Covered,
        )
        depth 14

  pub failed_to_start-Covered :
      (b : Bool) (s : ℕ) {w : World} → Covered g w → Covered g (failed_to_start d b s w)
  unfolding failed_to_start
  failed_to_start-Covered b s h = stopped-Covered s (fail_start-Covered b s h)

  all_deps_started-Covered : (s : ℕ) {w : World} → Covered g w → Covered g (all_deps_started d s w)
  unfolding all_deps_started
  all_deps_started-Covered s h =
      search (world_covered, queue_for_console-Covered, c.bring_up_covers, failed_to_start-Covered)
        depth 12

  pub take_console-Covered : (s : ℕ) {w : World} → Covered g w → Covered g (take_console d s w)
  unfolding take_console
  take_console-Covered s h =
      search (world_covered, all_deps_started-Covered, release_console-Covered) depth 12

  announce_started-Covered : (s : ℕ) {w : World} → Covered g w → Covered g (announce_started d s w)
  unfolding announce_started
  announce_started-Covered s h = search (world_covered, return_console-Covered) depth 14

  pub started-Covered : (s : ℕ) {w : World} → Covered g w → Covered g (started d s w)
  unfolding started
  started-Covered s h =
      search (world_covered, announce_started-Covered, do_stop-Covered, wake_all-Covered) depth 9

  pub execute_transition-Covered :
      (s : ℕ) {w : World} → Covered g w → Covered g (execute_transition d s w)
  unfolding execute_transition
  execute_transition-Covered s h =
      search (world_covered, all_deps_started-Covered, c.bring_down_covers) depth 12
