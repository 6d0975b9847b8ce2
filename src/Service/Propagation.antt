-- ===== src/Service/Propagation.antt =====
-- `do_propagation` of cdinit/dinit/src/service.cc.
use cdinit.Base.{ℕ, if◌then◌else◌, Bool, true, false, ◌||◌, ◌&&◌, not, List, [], ◌∷◌}
use cdinit.Service.Types.{ServiceState, StoppedReason, World, is_stopped, is_started}
use cdinit.Service.State.{
  Dispatch, from, to, is_hard, is_only_ordering, is_start_pinned, modify, set_holding_acq,
  add_prop_queue, each,
}
use cdinit.Service.Start.{require, do_start}
use cdinit.Service.DoStop.{do_stop, release}
use cdinit.Service.Transition.{failed_to_start}

abbrev pub same_flag : Bool → Bool → Bool
same_flag true b = b
same_flag false b = not b

unfoldable pub require_link : ℕ → World → World
require_link l w = if is_only_ordering l w then w else set_holding_acq l true (require (to l w) w)

unfoldable pub propagate_require : ℕ → World → World
propagate_require s w =
    let w1 = each require_link (w.graph.depends_on s) w in
    if (w.svc s).prop_require then modify s (λ x. record x { prop_require = false }) w1 else w

unfoldable pub queue_pin : ℕ → World → World
queue_pin t w = add_prop_queue t (modify t (λ x. record x { prop_pin_dpt = true }) w)

-- Whether some hard dependent is pinned started.
abbrev pub pinned_by : World → List ℕ → Bool
pinned_by w [] = false
pinned_by w (l ∷ ls) =
    if is_hard l w && is_start_pinned (w.svc (from l w)) then true else pinned_by w ls

unfoldable pub pass_pin : Bool → ℕ → World → World
pass_pin dept_pin l w =
    if is_hard l w && not (same_flag (w.svc (to l w)).dept_pinned_started dept_pin)
    then queue_pin (to l w) w
    else w

module _ (d : Dispatch) where
  unfoldable pub release_dependency : ℕ → World → World
  release_dependency l w =
      if w.holding_acq l then release d (to l w) (set_holding_acq l false w) else w

  unfoldable pub release_dependencies : ℕ → World → World
  release_dependencies s w = each release_dependency (w.graph.depends_on s) w

  unfoldable pub propagate_release : ℕ → World → World
  propagate_release s w =
      let w1 = modify s (λ x. record x { prop_release = false }) (release_dependencies s w) in
      if (w.svc s).prop_release then w1 else w

  unfoldable pub propagate_failure : ℕ → World → World
  propagate_failure s w =
      let w1 =
        modify s
          (λ x. record x {
            service_state = ServiceState.stopped;
            prop_failure = false;
            stop_reason = StoppedReason.dep_failed;
          })
          w in
      if (w.svc s).prop_failure then failed_to_start d true s w1 else w

  unfoldable pub propagate_start : ℕ → World → World
  propagate_start s w =
      let w1 = modify s (λ x. record x { prop_start = false }) w in
      if (w.svc s).prop_start then do_start s w1 else w

  unfoldable pub propagate_stop : ℕ → World → World
  propagate_stop s w =
      let w1 = modify s (λ x. record x { prop_stop = false }) w in
      if (w.svc s).prop_stop then do_stop d (w1.svc s).in_user_restart s w1 else w

  -- A service whose pin by a dependent changes passes that on, and may stop once it has no pin left.
  unfoldable pub change_dept_pin : Bool → ℕ → World → World
  change_dept_pin dept_pin s w =
      let w1 = modify s (λ x. record x { dept_pinned_started = dept_pin }) w in
      let w2 = each (pass_pin dept_pin) (w1.graph.depends_on s) w1 in
      let x = w2.svc s in
      let must_stop = (is_stopped x.desired_state || x.force_stop) && is_started x.service_state in
      if not (is_start_pinned x) && must_stop then do_stop d false s w2 else w2

  -- The source never resets `prop_pin_dpt`.
  unfoldable pub propagate_pin : ℕ → World → World
  propagate_pin s w =
      let dept_pin = pinned_by w (w.graph.dependents s) in
      if (w.svc s).prop_pin_dpt && not (same_flag (w.svc s).dept_pinned_started dept_pin)
      then change_dept_pin dept_pin s w
      else w

  unfoldable pub do_propagation : ℕ → World → World
  do_propagation s w = propagate_pin s (
      propagate_stop s
        (propagate_start s (propagate_failure s (propagate_release s (propagate_require s w)))))
