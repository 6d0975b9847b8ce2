-- ===== src/Service/Commands.antt =====
-- What a control connection asks of a service, in cdinit/dinit/src/service.cc: `stop`, `pin_start`
-- and `unpin`; and the queues and commands of `service_set` in cdinit/dinit/src/includes/service.h.
use cdinit.Base.{ℕ, zero, suc, if◌then◌else◌, Bool, true, false, ◌||◌, ◌&&◌, not, [], ◌∷◌}
use cdinit.Service.Types.{
  ServiceState, ShutdownType, StoppedReason, World, is_stopped, is_starting, is_started, decrement,
  is_zero,
}
use cdinit.Service.State.{
  Dispatch, to, is_hard, is_start_pinned, modify, add_prop_queue, run_out_of_fuel, is_nil, each,
}
use cdinit.Service.Start.{start}
use cdinit.Service.DoStop.{do_stop}
use cdinit.Service.Transition.{execute_transition, started}
use cdinit.Service.Propagation.{queue_pin, do_propagation}

-- A hard dependency whose pin by this dependent may change.
unfoldable pub request_pin : Bool → ℕ → World → World
request_pin pinned l w =
    let same = if (w.svc (to l w)).dept_pinned_started then pinned else not pinned in
    if is_hard l w && same then queue_pin (to l w) w else w

unfoldable pub pin_start : ℕ → World → World
pin_start s w =
    let w1 =
      if (w.svc s).dept_pinned_started
      then w
      else each (request_pin false) (w.graph.depends_on s) w in
    if (w.svc s).pinned_started then w else modify s (λ x. record x { pinned_started = true }) w1

unfoldable pub pin_stop : ℕ → World → World
pin_stop s w = modify s (λ x. record x { pinned_stopped = true }) w

-- `stop` gives up the explicit activation, and with `bring_down`, or if nothing requires the service,
-- the wish that it runs.
unfoldable pub deactivate : Bool → ℕ → World → World
deactivate bring_down s w =
    let w1 =
      if (w.svc s).start_explicit
      then modify s
          (λ x. record x { required_by = decrement x.required_by; start_explicit = false }) w
      else w in
    if bring_down || is_zero (w1.svc s).required_by
    then modify s (λ x. record x { desired_state = ServiceState.stopped }) w1
    else w1

unfoldable pub release_if_unrequired : ℕ → World → World
release_if_unrequired s w =
    let w1 = modify s (λ x. record x { prop_release = not x.prop_require }) w in
    if is_zero (w.svc s).required_by
    then (if (w1.svc s).prop_release then add_prop_queue s w1 else w1)
    else w

-- `unpin` releases what the pin had kept although nothing requires the service.
unfoldable pub release_unpinned : ℕ → World → World
release_unpinned s w =
    if is_zero (w.svc s).required_by
    then add_prop_queue s (modify s (λ x. record x { prop_release = true }) w)
    else w

module _ (d : Dispatch) where
  unfoldable pub stop : Bool → ℕ → World → World
  stop bring_down s w =
      let w1 = deactivate bring_down s w in
      let w2 = release_if_unrequired s w1 in
      let w3 = modify s (λ x. record x { stop_reason = StoppedReason.normal }) w2 in
      let down = bring_down || is_zero (w1.svc s).required_by in
      if is_start_pinned (w1.svc s)
      then w1
      else (if down && not (is_stopped (w2.svc s).service_state) then do_stop d false s w3 else w2)

  -- `process_queues` processes until both queues are empty, which nothing bounds: a chain of services
  -- that start one another may go on for ever. Each round of the model takes one element.
  unfoldable pub process_queues : ℕ → World → World
  process_queues zero w =
      if is_nil w.prop_queue && is_nil w.stop_queue then w else run_out_of_fuel w
  process_queues (suc n) w = elim w.prop_queue [
    | next ∷ rest ↦ process_queues n (do_propagation d next (record w { prop_queue = rest }))
    | [] ↦ elim w.stop_queue [
      | next ∷ rest ↦ process_queues n (execute_transition d next (record w { stop_queue = rest }))
      | [] ↦ w
    ]
  ]

  -- `unpin` of a started service that has lost its last pin.
  unfoldable pub stop_unpinned : ℕ → ℕ → World → World
  stop_unpinned n s w =
      if is_stopped (w.svc s).desired_state || (w.svc s).force_stop
      then process_queues n (do_stop d false s w)
      else w

  -- `unpin` of a service pinned started that no dependent pins.
  unfoldable pub unpin_start : ℕ → ℕ → World → World
  unpin_start n s w0 =
      let w = each (request_pin true) (w0.graph.depends_on s) w0 in
      if is_started (w.svc s).service_state then stop_unpinned n s (release_unpinned s w) else w

  -- The return from `unpin` at `dept_pinned_started` skips the reset of `pinned_stopped`.
  unfoldable pub unpin : ℕ → ℕ → World → World
  unpin n s w =
      let w1 = modify s (λ x. record x { pinned_started = false }) w in
      let w2 = if (w.svc s).pinned_started then unpin_start n s w1 else w in
      if (w.svc s).pinned_started && (w.svc s).dept_pinned_started
      then w1
      else modify s (λ x. record x { pinned_stopped = false }) w2

  unfoldable pub start_service : ℕ → ℕ → World → World
  start_service n s w = process_queues n (start s w)

  unfoldable pub stop_service : ℕ → ℕ → World → World
  stop_service n s w = process_queues n (stop true s w)

  unfoldable pub stop_all_services : ℕ → ShutdownType → World → World
  stop_all_services n type w =
      let w1 = record w { restart_enabled = false; shutdown_type = type } in
      process_queues n (each (λ s u. unpin n s (stop false s u)) w1.records w1)

  -- `triggered_service::set_trigger`
  unfoldable pub set_trigger : Bool → ℕ → World → World
  set_trigger new_trigger s w =
      let w1 = modify s (λ x. record x { is_triggered = new_trigger }) w in
      if new_trigger && is_starting (w1.svc s).service_state && not (w1.svc s).waiting_for_deps
      then started d s w1
      else w1
