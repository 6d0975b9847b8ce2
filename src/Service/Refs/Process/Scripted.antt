-- ===== src/Service/Refs/Process/Scripted.antt =====
-- The accounting of references through `scripted_service` of cdinit/dinit/src/proc-service.cc.
use cdinit.Base.{ℕ, List}
use cdinit.Service.Types.{Graph, World}
use cdinit.Service.State.{Dispatch}
use cdinit.Service.Process.{Os}
use cdinit.Service.Process.Scripted.{
  interrupt_start, bring_down, exit_interrupted, exit_starting, handle_exit_status, exec_failed,
}
use cdinit.Service.Refs.Defs.{Owes, Covered, IsGraph}
use cdinit.Service.Refs.DoStop.{Covers}
use cdinit.Service.Refs.Covering.{
  if-Covered_lem, modify-Covered, started-Covered, stopped-Covered, failed_to_start-Covered,
}
use cdinit.Service.Refs.Commands.{process_queues-Covered}
use cdinit.Service.Refs.Process
use cdinit.Service.Refs.Process.{
  set_proc-Owes, set_proc-Covered, end_timer-Covered, arm_timer-Covered, start_ps_process-Covered,
}

pub interrupt_start-Owes :
    {g : Graph} {p : List ℕ} (s : ℕ) {w : World} → Owes g p w → Owes g p (interrupt_start s w).1
unfolding interrupt_start
interrupt_start-Owes s h = set_proc-Owes s _ (Process.interrupt_start-Owes s h)

module _ {g : Graph} (v : IsGraph g) (d : Dispatch) (c : Covers g d) (os : Os) (n : ℕ) where
  pub bring_down-Covered : (s : ℕ) {w : World} → Covered g w → Covered g (bring_down os d n s w)
  unfolding bring_down
  bring_down-Covered s h =
      search (if-Covered_lem, arm_timer-Covered, stopped-Covered v d c, start_ps_process-Covered)
        depth 12

  exit_interrupted-Covered :
      (s : ℕ) {w : World} → Covered g w → Covered g (exit_interrupted os d n s w)
  unfolding exit_interrupted
  exit_interrupted-Covered s h =
      search
        (
          if-Covered_lem,
          set_proc-Covered,
          end_timer-Covered,
          stopped-Covered v d c,
          bring_down-Covered,
        )
        depth 12

  exit_starting-Covered : (s : ℕ) {w : World} → Covered g w → Covered g (exit_starting os d n s w)
  unfolding exit_starting
  exit_starting-Covered s h =
      search (if-Covered_lem, modify-Covered, started-Covered v d c, failed_to_start-Covered v d c)
        depth 12

  pub exec_failed-Covered : (s : ℕ) {w : World} → Covered g w → Covered g (exec_failed os d n s w)
  unfolding exec_failed
  exec_failed-Covered s h =
      search (if-Covered_lem, modify-Covered, stopped-Covered v d c, failed_to_start-Covered v d c)
        depth 12

  -- The adjacency lists of the links agree with each other, and the virtual functions keep
  -- the accounts up to a surplus. Then for `handle_exit_status` of a scripted service: if `required_by` of
  -- every service is no less than its explicit activation and the links that hold it, with
  -- a known surplus, the same is so after.
  pub handle_exit_status_scripted-Covered :
      (s : ℕ) {w : World} → Covered g w → Covered g (handle_exit_status os d n s w)
  unfolding handle_exit_status
  handle_exit_status_scripted-Covered s h = process_queues-Covered v d c n _ (
      search
        (if-Covered_lem, exit_interrupted-Covered, stopped-Covered v d c, exit_starting-Covered)
        depth 9)
