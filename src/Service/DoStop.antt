-- ===== src/Service/DoStop.antt =====
-- `do_stop` of cdinit/dinit/src/service.cc, and the callers that only add to it.
use cdinit.Base.{ℕ, zero, suc, if◌then◌else◌, Bool, true, false, ◌||◌, ◌&&◌, not, length}
use cdinit.Service.Types.{ServiceState, ServiceEvent, StoppedReason, World, is_starting, is_started}
use cdinit.Service.State.{
  Dispatch, is_start_pinned, modify, notify_listeners, add_transition_queue, run_out_of_fuel,
  unqueue_console,
}
use cdinit.Service.Stop.{release_explicit, release_stopping, stop_dependents, wants_auto_restart}

module _ (d : Dispatch) where
  open d use {can_interrupt_start, interrupt_start, check_restart, get_exit_status}

  -- Whether the service will start again once it has stopped; asks `check_restart` for an automatic
  -- restart, and records the answer.
  unfoldable pub decide_restart : Bool → ℕ → World → Bool × World
  decide_restart with_restart s w =
      let x = w.svc s in
      let auto =
        wants_auto_restart x.auto_restart x.record_type (get_exit_status s w)
        && is_started x.desired_state in
      let (allowed, w1) = check_restart s w in
      let w2 = modify s (λ y. record y { in_auto_restart = allowed }) w1 in
      if not with_restart && auto then (allowed, w2) else (with_restart || auto, w)

  -- The end of `do_stop`.
  unfoldable pub set_stopping : Bool → ℕ → World → World
  set_stopping all_deps_stopped s w =
      let w1 =
        modify s
          (λ x. record x {
            service_state = ServiceState.stopping;
            waiting_for_deps = not all_deps_stopped;
          })
          w in
      if all_deps_stopped then add_transition_queue s w1 else w1

  -- A service that is starting: whether its start could be given up, so that it can stop now.
  unfoldable pub give_up_start : ℕ → World → Bool × World
  give_up_start s w =
      let x = w.svc s in
      let (interrupted, w1) = interrupt_start s w in
      let in_progress =
        if can_interrupt_start s w
        then (interrupted, notify_listeners ServiceEvent.start_cancelled s w1)
        else (false, w) in
      let w2 = modify s (λ y. record y { waiting_for_console = false }) (unqueue_console s w) in
      let w3 = if x.waiting_for_console then w2 else w in
      if not x.waiting_for_deps && not x.waiting_for_console
      then in_progress
      else (true, notify_listeners ServiceEvent.start_cancelled s w3)

  unfoldable pub finish_stop : Bool → ℕ → World → World
  finish_stop all_deps_stopped s w =
      let (given_up, w1) = give_up_start s w in
      if is_started (w.svc s).service_state
      then set_stopping all_deps_stopped s w
      else (if is_starting (w.svc s).service_state
          then (if given_up then set_stopping all_deps_stopped s w1 else w1)
          else w)

  unfoldable pub do_stop_with : (ℕ → World → World) → Bool → ℕ → World → World
  do_stop_with stop with_restart s w0 =
      let w1 = modify s (λ x. record x { in_auto_restart = false; in_user_restart = false }) w0 in
      let (for_restart, w2) = decide_restart with_restart s w1 in
      let w3 = if for_restart then w2 else release_explicit s w2 in
      let (all_deps_stopped, w4) = stop_dependents stop for_restart with_restart s w3 in
      if is_start_pinned (w0.svc s) then w0 else finish_stop all_deps_stopped s w4

  unfoldable pub do_stop_fuel : ℕ → Bool → ℕ → World → World
  do_stop_fuel zero with_restart s w = run_out_of_fuel w
  do_stop_fuel (suc n) with_restart s w = do_stop_with (do_stop_fuel n false) with_restart s w

  abbrev pub stop_fuel : World → ℕ
  stop_fuel w = suc (length w.records)

  unfoldable pub do_stop : Bool → ℕ → World → World
  do_stop with_restart s w = do_stop_fuel (stop_fuel w) with_restart s w

  -- `release(true)`
  unfoldable pub release : ℕ → World → World
  release = release_stopping (do_stop false)

  -- `restart`: whether a restart was issued.
  unfoldable pub restart : ℕ → World → Bool × World
  restart s w =
      let w1 =
        modify s (λ x. record x { stop_reason = StoppedReason.normal; force_stop = true }) w in
      if is_started (w.svc s).service_state then (true, do_stop true s w1) else (false, w)
