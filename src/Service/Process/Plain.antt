-- ===== src/Service/Process/Plain.antt =====
-- `process_service` of cdinit/dinit/src/proc-service.cc.
use cdinit.Base.{
  ℕ, ◌==◌, if◌then◌else◌, Bool, true, false, ◌||◌, ◌&&◌, not, Option, none, some, is_some,
}
use cdinit.Service.Types.{
  Output, World, ServiceState, StoppedReason, is_starting, is_started, is_stopping,
}
use cdinit.Service.State.{Dispatch, emit, modify}
use cdinit.Service.Stop.{unrecoverable_stop}
use cdinit.Service.Start.{initiate_start}
use cdinit.Service.Transition.{failed_to_start, started, stopped, stop_check_dependents}
use cdinit.Service.Commands.{process_queues}
use cdinit.Service.Process.{Os, set_proc, end_timer, arm_timer}
use cdinit.Service.Process.Base.{
  kill_pg, sigkill, do_smooth_recovery, handle_unexpected_termination,
}

unfoldable pub spawned_stop : Option ℕ → ℕ → World → Bool × World
spawned_stop none s w = (false, w)
spawned_stop (some k) s w =
    (true, set_proc s (λ x. record x { stop_pid = some k; waiting_for_execstat = true }) w)

unfoldable pub close_notification : ℕ → World → World
close_notification s w = set_proc s (λ x. record x { notification_open = false }) w

-- From `arm_timer:` in `bring_down`.
unfoldable pub stop_in_progress : ℕ → World → World
stop_in_progress s w =
    let w1 = set_proc s (λ x. record x { stop_issued = true }) w in
    if (w1.proc s).has_stop_timeout then arm_timer s w1 else w1

module _ (os : Os) (d : Dispatch) (n : ℕ) where
  unfoldable pub start_stop_process : ℕ → World → Bool × World
  start_stop_process s w = spawned_stop (os.spawn_stop s w) s w

  -- `bring_down` after the attempt to run the stop command, or without one.
  unfoldable pub signal_and_wait : ℕ → World → World
  signal_and_wait s w =
      let x = w.proc s in
      if not (is_some x.stop_pid) && not x.tracking_child
      then stopped d s w
      else stop_in_progress s w

  unfoldable pub terminate : ℕ → World → World
  terminate s w =
      let x = w.proc s in
      let (b, w1) = start_stop_process s w in
      let fallback = kill_pg s (if x.term_signal == 0 then sigkill else x.term_signal) w1 in
      let asked = if x.term_signal == 0 then w else kill_pg s x.term_signal w in
      if x.has_stop_command
      then (if b then stop_in_progress s w1 else signal_and_wait s fallback)
      else signal_and_wait s asked

  unfoldable pub bring_down : ℕ → World → World
  bring_down s w =
      let x = w.proc s in
      let w1 = set_proc s (λ x. record x { doing_smooth_recovery = false }) w in
      let w2 =
        if x.waiting_restart_timer
        then set_proc s (λ x. record x { waiting_restart_timer = false })
            (emit (Output.stop_timer s) w1)
        else w1 in
      let running = if is_some x.pid then terminate s w else stopped d s w2 in
      if is_some x.stop_pid || x.stop_issued || x.waiting_for_execstat then w else running

  unfoldable pub exec_succeeded : ℕ → World → World
  exec_succeeded s w0 =
      let w = set_proc s (λ x. record x { tracking_child = true }) w0 in
      let x = w.proc s in
      let starting = if x.wants_notification then w else started d s (end_timer s w) in
      let recovered = if x.notification_open then w else end_timer s w in
      let stopping = if stop_check_dependents s w then bring_down s w else w in
      if is_starting (w.svc s).service_state
      then starting
      else (if is_started (w.svc s).service_state
          then recovered
          else (if is_stopping (w.svc s).service_state then stopping else w))

  unfoldable pub exec_failed : ℕ → World → World
  exec_failed s w0 =
      let w = close_notification s (end_timer s w0) in
      let w1 =
        modify s
          (λ x. record x {
            stop_reason = StoppedReason.exec_failed;
            service_state = ServiceState.stopping;
          })
          w in
      let w2 = set_proc s (λ x. record x { doing_smooth_recovery = false }) w in
      let w3 = modify s (λ x. record x { stop_reason = StoppedReason.terminated }) w2 in
      if is_starting (w.svc s).service_state
      then failed_to_start d false s w1
      else unrecoverable_stop s w3

  -- `handle_exit_status` of a service that stops.
  unfoldable pub exit_stopping : ℕ → World → World
  exit_stopping s w =
      let x = w.proc s in
      let y = w.svc s in
      let over = stopped d s (set_proc s (λ x. record x { stop_issued = false }) w) in
      let at_end = if not (is_some x.stop_pid) && not x.waiting_for_execstat then over else w in
      if not y.waiting_for_deps
      then at_end
      else (if is_started y.desired_state && not y.pinned_stopped then initiate_start s w else w)

  -- `handle_exit_status` of a service that was running.
  unfoldable pub exit_started : ℕ → World → World
  exit_started s w =
      let (b, w1) = d.check_restart s w in
      let w2 = set_proc s (λ x. record x { doing_smooth_recovery = true }) w1 in
      let ended = λ (u : World). process_queues d n (handle_unexpected_termination os d n s u) in
      let recovered = if b then do_smooth_recovery os d n s w2 else ended w1 in
      if (w.proc s).smooth_recovery && is_started (w.svc s).service_state
      then recovered
      else ended w

  -- A start timer that runs makes the handler treat a started service as one that starts.
  unfoldable pub handle_exit_status : ℕ → World → World
  handle_exit_status s w0 =
      let w = end_timer s (close_notification s w0) in
      let state = (w0.svc s).service_state in
      let starting =
        is_starting state || (is_started state && (w0.proc s).waiting_stopstart_timer) in
      let failed =
        failed_to_start d false s
          (modify s (λ x. record x { stop_reason = StoppedReason.failed }) w) in
      if starting
      then process_queues d n failed
      else (if is_stopping state then process_queues d n (exit_stopping s w) else exit_started s w)

  unfoldable pub handle_stop_exit : ℕ → World → World
  handle_stop_exit s w =
      let x = w.proc s in
      if not (is_some x.pid) || not x.tracking_child
      then stopped d s (set_proc s (λ x. record x { stop_issued = false }) w)
      else w
