-- ===== src/Service/Transition.antt =====
-- The ends of transitions in cdinit/dinit/src/service.cc: `stopped`, `failed_to_start`, `started`,
-- `all_deps_started`, the console, and `execute_transition`.
use cdinit.Base.{
  ℕ, if◌then◌else◌, Bool, true, false, ◌||◌, ◌&&◌, not, Option, none, some, List, [], ◌∷◌,
}
use Prim.Native.String.{String}
use text.Mathlib.Text.{◌==◌ as str_eq}
use cdinit.Service.Types.{
  Service, ServiceState, ServiceType, ServiceEvent, Output, World, is_stopped, is_starting,
  is_started, is_stopping, is_zero, did_finish, did_exit_clean,
}
use cdinit.Service.State.{
  Dispatch, from, to, is_hard, modify, set_waiting_on, emit, notify_listeners, add_transition_queue,
  append_console_queue, service_inactive, each,
}
use cdinit.Service.Stop.{release_explicit, break_soft, dependency_started}
use cdinit.Service.Start.{initiate_start, fail_start, start, check_deps_started}
use cdinit.Service.DoStop.{do_stop}

-- The first service of that name, in the order of `records`.
unfoldable pub find_record : (ℕ → Service) → String → List ℕ → Option ℕ
find_record svc name [] = none
find_record svc name (s ∷ r) =
    if str_eq (svc s).service_name name then some s else find_record svc name r

abbrev pub is_placeholder : ServiceType → Bool
is_placeholder ServiceType.placeholder = true
is_placeholder _ = false

-- `service_set::find_service`
unfoldable pub find_service : String → Bool → World → Option ℕ
find_service name find_placeholders w = elim (find_record w.svc name w.records) [
  | none ↦ none
  | some s ↦ if not find_placeholders && is_placeholder (w.svc s).record_type then none else some s
]

unfoldable pub dependent_stopped : ℕ → World → World
dependent_stopped s w =
    if is_stopping (w.svc s).service_state && (w.svc s).waiting_for_deps
    then add_transition_queue s w
    else w

abbrev pub none_holding : World → List ℕ → Bool
none_holding w [] = true
none_holding w (l ∷ ls) =
    if is_hard l w && w.holding_acq l && not (w.waiting_on l) then false else none_holding w ls

unfoldable pub stop_check_dependents : ℕ → World → Bool
stop_check_dependents s w = none_holding w (w.graph.dependents s)

unfoldable pub queue_for_console : ℕ → World → World
queue_for_console s w =
    append_console_queue s (modify s (λ x. record x { waiting_for_console = true }) w)

module _ (d : Dispatch) where
  open d use {bring_up, bring_down, becoming_inactive, get_exit_status, acquired_console}

  -- `service_set::pull_console_queue`
  unfoldable pub pull_console_queue : World → World
  pull_console_queue w = elim w.console_queue [
    | [] ↦ emit (Output.enable_console_log true) (emit Output.discard_console_log w)
    | front ∷ rest ↦ acquired_console front (record w { console_queue = rest })
  ]

  unfoldable pub release_console : ℕ → World → World
  release_console s w = pull_console_queue (modify s (λ x. record x { have_console = false }) w)

  -- Starts the chained service if it was found, and logs that it was not otherwise.
  unfoldable pub start_found : ℕ → Option ℕ → World → World
  start_found s none w = emit (Output.log_chain_failed s) w
  start_found s (some t) w = start t w

  -- `load_service` of a plain `service_set` finds the service, or throws.
  unfoldable pub chain_to : ℕ → Option String → World → World
  chain_to s none w = w
  chain_to s (some name) w = start_found s (find_service name false w) w

  -- `stopped`, after the state is set: a service that does not restart becomes inactive.
  unfoldable pub become_inactive : ℕ → World → World
  become_inactive s w =
      let w1 = becoming_inactive s w in
      if (w1.svc s).start_explicit
      then release_explicit s w1
      else (if is_zero (w1.svc s).required_by then service_inactive w1 else w1)

  -- The end of `stopped`: the log line and the chained service.
  unfoldable pub finish_stopped : Bool → ℕ → World → World
  finish_stopped will_restart s w =
      let w1 = emit (Output.log_stopped s) w in
      let x = w1.svc s in
      let finished =
        did_finish x.stop_reason && did_exit_clean (get_exit_status s w1) && not will_restart in
      let chained =
        if (x.onstart_flags.always_chain || finished) && w1.restart_enabled
        then chain_to s x.start_on_completion w1
        else w1 in
      notify_listeners ServiceEvent.stopped s (if (w.svc s).start_failed then w else chained)

  -- The start of `stopped` and of `started`: the console goes back.
  unfoldable pub return_console : ℕ → World → World
  return_console s w = release_console s (emit Output.take_terminal w)

  -- A dependent that is not hard is told and let go.
  unfoldable pub detach_link : ℕ → ℕ → World → World
  detach_link s l w = if is_hard l w then w else break_soft s l w

  -- `stopped`, up to the change of state: soft dependents are let go, and dependencies told.
  unfoldable pub detach : Bool → ℕ → World → World
  detach will_restart s w =
      let w1 = if will_restart then w else each (detach_link s) (w.graph.dependents s) w in
      each (λ l u. dependent_stopped (to l u) u) (w1.graph.depends_on s) w1

  unfoldable pub stopped : ℕ → World → World
  stopped s w0 =
      let w1 = if (w0.svc s).have_console then return_console s w0 else w0 in
      let w2 = modify s (λ x. record x { force_stop = false }) w1 in
      let will_restart = is_started (w2.svc s).desired_state && not (w2.svc s).pinned_stopped in
      let w3 =
        modify s (λ x. record x { service_state = ServiceState.stopped })
          (detach will_restart s w2) in
      finish_stopped will_restart s
        (if will_restart then initiate_start s w3 else become_inactive s w3)

  -- `failed_to_start(depfailed, true)`
  unfoldable pub failed_to_start : Bool → ℕ → World → World
  failed_to_start depfailed s w = stopped s (fail_start depfailed s w)

  -- `all_deps_started`
  unfoldable pub all_deps_started : ℕ → World → World
  all_deps_started s w =
      let x = w.svc s in
      let w1 = modify s (λ y. record y { waiting_for_deps = false }) w in
      let (success, w2) = bring_up s w1 in
      let w3 = modify s (λ y. record y { service_state = ServiceState.stopping }) w2 in
      if x.onstart_flags.starts_on_console && not x.have_console
      then queue_for_console s w
      else (if success then w2 else failed_to_start false s w3)

  -- `acquired_console`
  unfoldable pub take_console : ℕ → World → World
  take_console s w =
      let w1 = modify s (λ x. record x { waiting_for_console = false; have_console = true }) w in
      if is_starting (w1.svc s).service_state && check_deps_started s w1
      then all_deps_started s w1
      else release_console s w1

  -- The end of `started`: dependents that wait are told.
  unfoldable pub wake_dependent : ℕ → World → World
  wake_dependent l w =
      if w.waiting_on l then set_waiting_on l false (dependency_started (from l w) w) else w

  -- `started`, up to the decision whether to stop at once.
  unfoldable pub announce_started : ℕ → World → World
  announce_started s w0 =
      let flags = (w0.svc s).onstart_flags in
      let w1 =
        if (w0.svc s).have_console && not flags.runs_on_console then return_console s w0 else w0 in
      let w2 =
        modify s (λ y. record y { service_state = ServiceState.started })
          (emit (Output.log_started s) w1) in
      let w3 = notify_listeners ServiceEvent.started s w2 in
      let w4 = if flags.rw_ready then emit Output.rootfs_is_rw w3 else w3 in
      if flags.log_ready then emit Output.setup_external_log w4 else w4

  unfoldable pub started : ℕ → World → World
  started s w0 =
      let w = announce_started s w0 in
      if (w.svc s).force_stop || is_stopped (w.svc s).desired_state
      then do_stop d false s w
      else each wake_dependent (w.graph.dependents s) w

  unfoldable pub execute_transition : ℕ → World → World
  execute_transition s w =
      let w1 = modify s (λ x. record x { waiting_for_deps = false }) w in
      let w2 = if (w.svc s).onstart_flags.kill_all_on_stop then emit Output.kill_all w1 else w1 in
      if is_starting (w.svc s).service_state
      then (if check_deps_started s w then all_deps_started s w1 else w)
      else (if is_stopping (w.svc s).service_state && stop_check_dependents s w
          then bring_down s w2
          else w)
