-- ===== src/Service/Process/Base.antt =====
-- `base_process_service` of cdinit/dinit/src/baseproc-service.cc.
use cdinit.Base.{
  ℕ, ◌+◌, ltb, leb, ◌==◌, suc, if◌then◌else◌, Bool, true, false, ◌||◌, ◌&&◌, not, Option, none,
  some, is_some,
}
use cdinit.Service.Types.{
  World, ServiceState, StoppedReason, Output, is_starting, is_started, is_stopping,
}
use cdinit.Service.State.{Dispatch, modify, emit}
use cdinit.Service.Stop.{unrecoverable_stop}
use cdinit.Service.DoStop.{do_stop}
use cdinit.Service.Start.{initiate_start, fail_start}
use cdinit.Service.Transition.{failed_to_start}
use cdinit.Service.Commands.{process_queues}
use cdinit.Service.Process.{Os, set_proc, end_timer, arm_timer}

abbrev set_running : ℕ → ℕ → World → World
set_running k s w =
    set_proc s
      (λ x. record x {
        pid = some k;
        waiting_for_execstat = true;
        notification_open = x.wants_notification;
      })
      w

unfoldable pub spawned : Option ℕ → ℕ → World → Bool × World
spawned none s w = (false, w)
spawned (some k) s w = (true, set_running k s w)

unfoldable pub kill_pg : ℕ → ℕ → World → World
kill_pg s signo w = emit (Output.signal s signo) w

-- SIGINT and SIGKILL.
abbrev pub sigint : ℕ
sigint = 2

abbrev pub sigkill : ℕ
sigkill = 9

unfoldable pub becoming_inactive : ℕ → World → World
becoming_inactive s w = set_proc s (λ x. record x { socket_open = false }) w

-- `base_process_service::interrupt_start`
unfoldable pub interrupt_start : ℕ → World → Bool × World
interrupt_start s w =
    let w1 = kill_pg s sigint w in
    let w2 = if (w.proc s).has_stop_timeout then arm_timer s w1 else end_timer s w1 in
    if (w.proc s).waiting_restart_timer
    then (
      true,
      set_proc s (λ x. record x { waiting_restart_timer = false }) (emit (Output.stop_timer s) w),
    )
    else (false, modify s (λ x. record x { service_state = ServiceState.stopping }) w2)

-- `base_process_service::kill_with_fire`, and the override of `process_service`, which differs where
-- a stop command runs.
unfoldable pub kill_with_fire : ℕ → World → World
kill_with_fire s w =
    let w1 = if is_some (w.proc s).pid then kill_pg s sigkill w else w in
    if is_some (w.proc s).stop_pid then emit (Output.signal_stop_command s) w1 else w1

-- `process_service::check_restart`
module _ (os : Os) where
  unfoldable pub check_restart : ℕ → World → Bool × World
  check_restart s w =
      let x = w.proc s in
      let counted =
        set_proc s (λ x. record x { restart_interval_count = suc x.restart_interval_count }) w in
      let opened =
        set_proc s (λ x. record x { restart_interval_time = os.time w; restart_interval_count = 1 })
          w in
      let given_up = modify s (λ x. record x { desired_state = ServiceState.stopped }) w in
      let within =
        if leb x.max_restart_interval_count x.restart_interval_count
        then (false, given_up)
        else (true, counted) in
      let limited =
        if ltb (os.time w) (x.restart_interval_time + x.restart_interval)
        then within
        else (true, opened) in
      if x.max_restart_interval_count == 0 then (true, w) else limited

  unfoldable pub start_ps_process : ℕ → World → Bool × World
  start_ps_process s w =
      let w1 = set_proc s (λ x. record x { last_start_time = os.time w }) w in
      spawned (os.spawn s w1) s w1

  -- `open_socket`
  unfoldable pub open_socket : ℕ → World → Bool × World
  open_socket s w =
      let opened : Bool × World = (true, set_proc s (λ x. record x { socket_open = true }) w) in
      if not (w.proc s).has_socket_path || (w.proc s).socket_open
      then (true, w)
      else (if os.bind_socket s w then opened else (false, w))

  -- The branch of `bring_up` that starts the process for the first time.
  unfoldable pub first_start : ℕ → World → Bool × World
  first_start s w =
      let w1 = set_proc s (λ x. record x { restart_interval_count = 0 }) w in
      let (b, w2) = start_ps_process s w1 in
      let w3 = set_proc s (λ x. record x { restart_interval_time = x.last_start_time }) w2 in
      let timed = if (w3.proc s).has_start_timeout then arm_timer s w3 else end_timer s w3 in
      (b, if b then timed else w3)

  module _ (d : Dispatch) (n : ℕ) where
    -- What `do_restart` does when the process does not start.
    unfoldable pub restart_failed : Bool → ℕ → World → World
    restart_failed was_starting s w =
        process_queues d n
          (if was_starting then failed_to_start d false s w else unrecoverable_stop s w)

    unfoldable pub do_restart : ℕ → World → World
    do_restart s w =
        let w1 = set_proc s (λ x. record x { waiting_restart_timer = false }) w in
        let (b, w2) = start_ps_process s w1 in
        let running = if (w2.proc s).has_start_timeout then arm_timer s w2 else w2 in
        if b then running else restart_failed (is_starting (w.svc s).service_state) s w2

    unfoldable pub restart_ps_process : ℕ → World → Bool × World
    restart_ps_process s w =
        let waiting =
          set_proc s (λ x. record x { waiting_restart_timer = true })
            (emit (Output.arm_timer s) w) in
        let x = w.proc s in
        (
          true,
          if leb (x.last_start_time + x.restart_delay) (os.time w) then do_restart s w else waiting,
        )

    unfoldable pub do_smooth_recovery : ℕ → World → World
    do_smooth_recovery s w =
        let (b, w1) = restart_ps_process s w in
        if b then w1 else process_queues d n (unrecoverable_stop s w1)

    unfoldable pub bring_up : ℕ → World → Bool × World
    bring_up s w =
        let (b, w1) = open_socket s w in
        let started =
          if (w1.svc s).in_auto_restart then restart_ps_process s w1 else first_start s w1 in
        if b then started else (false, w1)

    unfoldable pub handle_unexpected_termination : ℕ → World → World
    handle_unexpected_termination s w =
        let w1 =
          modify s (λ x. record x { stop_reason = StoppedReason.terminated; force_stop = true })
            w in
        let w2 = process_queues d n (do_stop d false s w1) in
        let x = w2.svc s in
        if is_stopping x.service_state && is_started x.desired_state && not x.pinned_stopped
        then process_queues d n (initiate_start s w2)
        else w2

    -- The start of a process has timed out. `interrupt_start` is virtual.
    unfoldable pub start_timed_out : ℕ → World → World
    start_timed_out s w =
        let (b, w1) = d.interrupt_start s w in
        fail_start false s (modify s (λ x. record x { stop_reason = StoppedReason.timed_out }) w1)

    unfoldable pub timer_expired : ℕ → World → World
    timer_expired s w0 =
        let w = set_proc s (λ x. record x { waiting_stopstart_timer = false }) w0 in
        if is_stopping (w.svc s).service_state
        then kill_with_fire s w
        else (if is_some (w.proc s).pid then start_timed_out s w else do_restart s w)
