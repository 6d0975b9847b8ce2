-- ===== src/Service/Process/Scripted.antt =====
-- `scripted_service` of cdinit/dinit/src/proc-service.cc and cdinit/dinit/src/includes/proc-service.h.
use cdinit.Base.{ℕ, ◌==◌, if◌then◌else◌, Bool, true, false, ◌&&◌, not, is_some}
use cdinit.Service.Types.{World, StoppedReason, did_exit_clean, is_starting, is_stopping}
use cdinit.Service.State.{Dispatch, modify}
use cdinit.Service.Transition.{failed_to_start, started, stopped}
use cdinit.Service.Commands.{process_queues}
use cdinit.Service.Process.{Os, set_proc, end_timer, arm_timer}
use cdinit.Service.Process.Base
use cdinit.Service.Process.Base.{start_ps_process, sigint}

unfoldable pub interrupt_start : ℕ → World → Bool × World
interrupt_start s w =
    let (b, w1) = Base.interrupt_start s w in
    (b, set_proc s (λ x. record x { interrupting_start = not b }) w1)

module _ (os : Os) (d : Dispatch) (n : ℕ) where
  unfoldable pub bring_down : ℕ → World → World
  bring_down s w =
      let (b, w1) = start_ps_process os s w in
      let waiting = if (w1.proc s).has_stop_timeout then arm_timer s w1 else w1 in
      let commanded = if b then waiting else stopped d s w1 in
      if is_some (w.proc s).pid
      then w
      else (if (w.proc s).has_stop_command then commanded else stopped d s w)

  -- The start script ended after it was interrupted.
  unfoldable pub exit_interrupted : ℕ → World → World
  exit_interrupted s w0 =
      let w = end_timer s w0 in
      let st = (w.proc s).exit_status in
      let w1 = if st.did_exit && not (st.exit_status == 0) then stopped d s w else bring_down s w in
      set_proc s (λ x. record x { interrupting_start = false }) w1

  -- The start script ended by itself.
  unfoldable pub exit_starting : ℕ → World → World
  exit_starting s w =
      let st = (w.proc s).exit_status in
      let skipped = started d s (modify s (λ x. record x { start_skipped = true }) w) in
      let failed =
        failed_to_start d false s
          (modify s (λ x. record x { stop_reason = StoppedReason.failed }) w) in
      let unclean =
        if st.was_signalled && st.signal == sigint && (w.proc s).skippable
        then skipped
        else failed in
      if did_exit_clean st then started d s w else unclean

  unfoldable pub handle_exit_status : ℕ → World → World
  handle_exit_status s w =
      let stopping =
        if (w.proc s).interrupting_start then exit_interrupted s w else stopped d s w in
      process_queues d n
        (if is_stopping (w.svc s).service_state then stopping else exit_starting s w)

  unfoldable pub exec_failed : ℕ → World → World
  exec_failed s w =
      let failed =
        failed_to_start d false s
          (modify s (λ x. record x { stop_reason = StoppedReason.exec_failed }) w) in
      if is_starting (w.svc s).service_state
      then failed
      else (if is_stopping (w.svc s).service_state then stopped d s w else w)
