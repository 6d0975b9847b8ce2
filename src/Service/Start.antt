-- ===== src/Service/Start.antt =====
-- Starting, in cdinit/dinit/src/service.cc: `require`, `initiate_start`, the checks of dependencies,
-- `do_start`, `start`, and `failed_to_start` up to its call of `stopped`.
use cdinit.Base.{ℕ, if◌then◌else◌, Bool, true, false, ◌||◌, ◌&&◌, not, List, [], ◌∷◌}
use cdinit.Service.Types.{
  ServiceState, ServiceEvent, DependencyType, Output, World, is_stopped, is_starting, is_started,
  is_stopping, increment, is_zero,
}
use cdinit.Service.State.{
  from, to, is_hard, is_only_ordering, can_interrupt_stop, modify, set_waiting_on, set_holding_acq,
  emit, notify_listeners, add_prop_queue, add_transition_queue, unqueue_console, service_active,
  each, each_all,
}
use cdinit.Service.Stop.{release_explicit, release_link, stop_waiting}

unfoldable pub require : ℕ → World → World
require s w =
    let x = w.svc s in
    let w1 = modify s (λ y. record y { required_by = increment y.required_by }) w in
    let w2 = add_prop_queue s (modify s (λ y. record y { prop_start = true }) w1) in
    if is_zero x.required_by && not (is_starting x.service_state || is_started x.service_state)
    then w2
    else w1

-- One round of the first loop of `start_check_dependencies`: whether the dependency has started.
unfoldable pub check_dependency : ℕ → World → Bool × World
check_dependency l w =
    let x = w.svc (to l w) in
    let skip = is_only_ordering l w && not (is_starting x.service_state) in
    if skip || is_started x.service_state then (true, w) else (false, set_waiting_on l true w)

-- One round of the second loop: a starting service that is ordered after this one waits for it.
unfoldable pub check_ordering : ℕ → World → World
check_ordering l w =
    if not (w.waiting_on l) && is_only_ordering l w && is_starting (w.svc (from l w)).service_state
    then set_waiting_on l true w
    else w

unfoldable pub start_check_dependencies : ℕ → World → Bool × World
start_check_dependencies s w =
    let (all_deps_started, w1) = each_all check_dependency (w.graph.depends_on s) w in
    (all_deps_started, each check_ordering (w1.graph.dependents s) w1)

unfoldable pub initiate_start : ℕ → World → World
initiate_start s w =
    let w1 =
      modify s
        (λ x. record x {
          service_state = ServiceState.starting;
          waiting_for_deps = true;
          start_failed = false;
          start_skipped = false;
        })
        w in
    let (ready, w2) = start_check_dependencies s w1 in
    if ready then add_transition_queue s w2 else w2

abbrev pub none_waiting : (ℕ → Bool) → List ℕ → Bool
none_waiting waiting_on [] = true
none_waiting waiting_on (l ∷ ls) = if waiting_on l then false else none_waiting waiting_on ls

unfoldable pub check_deps_started : ℕ → World → Bool
check_deps_started s w = none_waiting w.waiting_on (w.graph.depends_on s)

-- Whether a failure to start goes on to the dependent (whatever it waits for), or ends its wait.
abbrev pub passes_failure : DependencyType → Bool
passes_failure DependencyType.regular = true
passes_failure DependencyType.milestone = true
passes_failure _ = false

unfoldable pub fail_dependent : ℕ → World → World
fail_dependent t w =
    if is_starting (w.svc t).service_state
    then add_prop_queue t (modify t (λ x. record x { prop_failure = true }) w)
    else w

-- One round of the loop of `failed_to_start` for the service `s`.
unfoldable pub fail_link : ℕ → ℕ → World → World
fail_link s l w = release_link s l (
    if passes_failure (w.graph.link l).dep_type
    then fail_dependent (from l w) w
    else stop_waiting l w)

unfoldable pub leave_console_queue : ℕ → World → World
leave_console_queue s w =
    if (w.svc s).waiting_for_console
    then modify s (λ x. record x { waiting_for_console = false }) (unqueue_console s w)
    else w

-- `failed_to_start(depfailed, false)`
unfoldable pub fail_start : Bool → ℕ → World → World
fail_start depfailed s w =
    let w1 = modify s (λ x. record x { desired_state = ServiceState.stopped }) w in
    let w2 = release_explicit s (leave_console_queue s w1) in
    let w3 = each (fail_link s) (w2.graph.dependents s) w2 in
    let w4 =
      emit (Output.log_failed s depfailed) (modify s (λ x. record x { start_failed = true }) w3) in
    modify s (λ x. record x { pinned_started = false })
      (notify_listeners ServiceEvent.failed_start s w4)

-- `do_start` takes soft dependents that run back on.
unfoldable pub reattach : ℕ → ℕ → World → World
reattach s l w =
    let x = w.svc (from l w) in
    if not (is_hard l w)
      && (not (w.holding_acq l) && (is_started x.service_state || is_starting x.service_state))
    then modify s (λ y. record y { required_by = increment y.required_by })
        (set_holding_acq l true w)
    else w

-- `do_start` of a service that is not stopped.
unfoldable pub start_active : ℕ → World → World
start_active s w =
    if is_stopping (w.svc s).service_state && can_interrupt_stop (w.svc s)
    then initiate_start s (notify_listeners ServiceEvent.stop_cancelled s w)
    else w

-- `do_start` of a stopped service.
unfoldable pub start_inactive : ℕ → World → World
start_inactive s w =
    let w1 = service_active (each (reattach s) (w.graph.dependents s) w) in
    let w2 =
      modify s (λ x. record x { prop_require = not x.prop_release; prop_release = false }) w1 in
    initiate_start s (if (w2.svc s).prop_require then add_prop_queue s w2 else w2)

unfoldable pub do_start : ℕ → World → World
do_start s w =
    let was_active = not (is_stopped (w.svc s).service_state) in
    let w1 = modify s (λ x. record x { desired_state = ServiceState.started }) w in
    if (w.svc s).pinned_stopped
    then (if was_active then w1 else fail_start false s w1)
    else (if was_active then start_active s w1 else start_inactive s w1)

unfoldable pub start : ℕ → World → World
start s w =
    let w1 =
      modify s (λ x. record x { required_by = increment x.required_by; start_explicit = true }) w in
    if (w.svc s).pinned_stopped then w else do_start s (if (w.svc s).start_explicit then w else w1)
