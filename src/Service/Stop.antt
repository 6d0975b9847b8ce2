-- ===== src/Service/Stop.antt =====
-- Stopping, in cdinit/dinit/src/service.cc: `release`, `do_stop`, `stop_dependents`, `forced_stop`,
-- `unrecoverable_stop` and `restart`.
--
-- `do_stop` calls itself through `stop_dependents` and `release`, on an explicitly started dependent
-- whose mark it has just cleared. The fuel is the number of services plus one.
use cdinit.Base.{ℕ, ◌==◌, if◌then◌else◌, Bool, true, false, ◌||◌, ◌&&◌, not}
use cdinit.Service.Types.{
  Service, ServiceState, ServiceType, ServiceEvent, StoppedReason, AutoRestartMode, ProcStatus,
  World, is_stopped, is_starting, is_started, is_stopping, decrement, is_zero,
}
use cdinit.Service.State.{
  from, is_hard, is_start_pinned, is_fundamentally_stopped, modify, set_waiting_on, set_holding_acq,
  notify_listeners, add_prop_queue, add_transition_queue, each_all,
}

-- The end of `release`, when the count has reached zero and nothing pins the service.
unfoldable pub release_inactive : (World → World) → ℕ → World → World
release_inactive stop s w =
    let w1 =
      modify s (λ x. record x { prop_release = not x.prop_require; prop_require = false }) w in
    let w2 = if (w1.svc s).prop_release then add_prop_queue s w1 else w1 in stop w2

-- `release`; `stop` is what it does last, for `issue_stop`.
unfoldable pub release_then : (World → World) → ℕ → World → World
release_then stop s w0 =
    let w1 = modify s (λ x. record x { required_by = decrement x.required_by }) w0 in
    let x = w1.svc s in
    let cancelled =
      is_stopping x.service_state && is_started x.desired_state && not (is_start_pinned x) in
    let w2 = if cancelled then notify_listeners ServiceEvent.start_cancelled s w1 else w1 in
    let w3 = modify s (λ x. record x { desired_state = ServiceState.stopped }) w2 in
    if is_zero x.required_by
    then (if is_start_pinned x then w3 else release_inactive stop s w3)
    else w1

-- `release(false)`
unfoldable pub release_quietly : ℕ → World → World
release_quietly = release_then (λ w. w)

abbrev pub is_down : Service → Bool
is_down x = is_stopped x.service_state || is_stopping x.service_state

-- `release(true)`, around the call of `do_stop`
unfoldable pub release_stopping : (ℕ → World → World) → ℕ → World → World
release_stopping stop s =
    release_then
      (λ w.
        if is_down (w.svc s)
        then w
        else stop s (modify s (λ x. record x { stop_reason = StoppedReason.normal }) w))
      s

-- `if (start_explicit) { start_explicit = false; release(false); }`
unfoldable pub release_explicit : ℕ → World → World
release_explicit s w =
    if (w.svc s).start_explicit
    then release_quietly s (modify s (λ x. record x { start_explicit = false }) w)
    else w

unfoldable pub forced_stop : ℕ → World → World
forced_stop s w =
    let w1 = modify s (λ x. record x { force_stop = true }) w in
    let w2 = add_prop_queue s (modify s (λ x. record x { prop_stop = true }) w1) in
    if is_stopped (w.svc s).service_state then w else (if is_start_pinned (w.svc s) then w1 else w2)

unfoldable pub unrecoverable_stop : ℕ → World → World
unrecoverable_stop s w =
    forced_stop s (modify s (λ x. record x { desired_state = ServiceState.stopped }) w)

-- `dependency_started`
unfoldable pub dependency_started : ℕ → World → World
dependency_started s w =
    let x = w.svc s in
    if (is_starting x.service_state || is_started x.service_state) && x.waiting_for_deps
    then add_transition_queue s w
    else w

-- The two halves of breaking a soft dependency: the link stops waiting, and is released.
unfoldable pub stop_waiting : ℕ → World → World
stop_waiting l w =
    if w.waiting_on l then dependency_started (from l w) (set_waiting_on l false w) else w

unfoldable pub release_link : ℕ → ℕ → World → World
release_link s l w = if w.holding_acq l then release_quietly s (set_holding_acq l false w) else w

-- `stop_dependents` for a forced stop of the service `s`: its dependent `t` must stop too.
unfoldable pub force_dependent : ℕ → ℕ → World → World
force_dependent s t w =
    let w1 = modify t (λ x. record x { stop_reason = StoppedReason.dep_failed }) w in
    if (w.svc s).force_stop
    then (if is_stopped (w.svc s).desired_state then unrecoverable_stop t w1 else forced_stop t w)
    else w

-- `stop_dependents` for a dependent `t` that must not restart.
unfoldable pub stop_dependent : (ℕ → World → World) → ℕ → World → World
stop_dependent stop t w =
    let w1 = modify t (λ x. record x { desired_state = ServiceState.stopped }) w in
    let w2 = release_stopping stop t (modify t (λ x. record x { start_explicit = false }) w1) in
    let w3 = if (w1.svc t).start_explicit then w2 else w1 in
    if is_stopped (w.svc t).desired_state
    then w
    else add_prop_queue t (modify t (λ x. record x { prop_stop = true }) w3)

-- `stop_dependents` for a dependent `t` that restarts with the service.
unfoldable pub restart_dependent : ℕ → World → World
restart_dependent t w = add_prop_queue t (
    modify t
      (λ x. record x {
        stop_reason = StoppedReason.dep_restart;
        in_user_restart = true;
        prop_stop = true;
      })
      w)

-- One round of `stop_dependents` on a hard dependent; whether it is down already.
unfoldable pub stop_hard : (ℕ → World → World) → Bool → ℕ → ℕ → World → Bool × World
stop_hard stop restart_deps s l w =
    let t = from l w in
    let w1 = force_dependent s t w in
    let x = w1.svc t in
    let restarting = restart_deps && not (is_stopping x.service_state) in
    let w2 =
      if is_stopped (w1.svc s).desired_state
      then stop_dependent stop t w1
      else (if restarting then restart_dependent t w1 else w1) in
    (is_fundamentally_stopped (w.svc t), if is_stopped x.service_state then w1 else w2)

unfoldable pub break_soft : ℕ → ℕ → World → World
break_soft s l w = release_link s l (stop_waiting l w)

unfoldable pub stop_link : (ℕ → World → World) → Bool → Bool → ℕ → ℕ → World → Bool × World
stop_link stop for_restart restart_deps s l w =
    if is_hard l w
    then stop_hard stop restart_deps s l w
    else (true, if for_restart then w else break_soft s l w)

unfoldable pub stop_dependents : (ℕ → World → World) → Bool → Bool → ℕ → World → Bool × World
stop_dependents stop for_restart restart_deps s w =
    each_all (stop_link stop for_restart restart_deps s) (w.graph.dependents s) w

abbrev pub is_process : ServiceType → Bool
is_process ServiceType.process = true
is_process ServiceType.bgprocess = true
is_process _ = false

-- SIGHUP, SIGINT, SIGUSR1, SIGUSR2 and SIGTERM, by their numbers on Linux.
abbrev pub is_ordinary_signal : ℕ → Bool
is_ordinary_signal n = n == 1 || n == 2 || n == 10 || n == 12 || n == 15

abbrev pub failed_exit : ProcStatus → Bool
failed_exit st =
    if st.was_signalled then not (is_ordinary_signal st.signal) else not (st.exit_status == 0)

abbrev pub wants_auto_restart : AutoRestartMode → ServiceType → ProcStatus → Bool
wants_auto_restart AutoRestartMode.never k st = false
wants_auto_restart AutoRestartMode.always k st = true
wants_auto_restart AutoRestartMode.on_failure k st = is_process k && failed_exit st
