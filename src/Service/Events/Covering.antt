-- ===== src/Service/Events/Covering.antt =====
-- The accounting of references along the steps of the event loop on the services of
-- cdinit/dinit/src/service.cc and cdinit/dinit/src/proc-service.cc.
use cdinit.Base.{ℕ, refl}
use cdinit.Service.Types.{Graph, World, ProcStatus}
use cdinit.Service.State.{Dispatch}
use cdinit.Service.Commands.{pin_stop}
use cdinit.Service.Process.{Os}
use cdinit.Service.Classes.{all_classes}
use cdinit.Service.Refs.Classes.{all_classes-Covers}
use cdinit.Service.Refs.Defs.{IsGraph}
use cdinit.Service.Refs.Writes.{modify-Owes}
use cdinit.Service.Refs.DoStop.{Covers}
use cdinit.Service.Refs.Defs.{Covered}
use cdinit.Service.Refs.Commands.{
  pin_start-Owes, unpin-Covered, process_queues-Covered, start_service-Covered,
  stop_service-Covered, stop_all_services-Covered, set_trigger-Covered,
}
use cdinit.Service.Refs.Process.{timer_expired-Covered}
use cdinit.Service.Refs.Process.Plain.{
  handle_exit_status-Covered, child_ended-Covered, stop_command_ended-Covered, exec_error-Covered,
  exec_done-Covered, exec_succeeded-Covered, exec_failed-Covered, ready_event-Covered,
  stop_exec_error-Covered, stop_exec_done-Covered,
}
use cdinit.Service.Refs.Process.Scripted as ScriptedRefs
use cdinit.Service.Refs.Process.Scripted.{handle_exit_status_scripted-Covered}
use cdinit.Service.Events.{
  Step, started, stopped, pinned_started, pinned_stopped, unpinned, all_stopped, triggered,
  processed, timed_out, process_ended, script_ended, stop_ended, process_not_run, script_not_run,
  process_run, script_run, notified, stop_not_run, stop_run, Reaches, here, then_step,
}

module _ {g : Graph} (v : IsGraph g) (d : Dispatch) (c : Covers g d) where
  Step-Covered : (w u : World) → Step d w u → Covered g w → Covered g u
  unfolding pin_stop
  Step-Covered w u (started n s _) h = start_service-Covered v d c n s w h
  Step-Covered w u (stopped n s _) h = stop_service-Covered v d c n s w h
  Step-Covered w u (pinned_started s _) h = (h.0, pin_start-Owes s h.1)
  Step-Covered w u (pinned_stopped s _) h = (h.0, modify-Owes s _ (λ x. refl) (λ x. refl) h.1)
  Step-Covered w u (unpinned n s _) h = unpin-Covered v d c n s w h
  Step-Covered w u (all_stopped n type _) h = stop_all_services-Covered v d c n type w h
  Step-Covered w u (triggered b s _) h = set_trigger-Covered v d c b s h
  Step-Covered w u (processed n _) h = process_queues-Covered v d c n w h
  Step-Covered w u (timed_out os n s _) h = timer_expired-Covered v d c os n s h
  Step-Covered w u (process_ended os n status s _) h =
      child_ended-Covered v d c os n _ status s w (λ x k. handle_exit_status-Covered v d c os n s k)
        h
  Step-Covered w u (script_ended os n status s _) h =
      child_ended-Covered v d c os n _ status s w
        (λ x k. handle_exit_status_scripted-Covered v d c os n s k) h
  Step-Covered w u (stop_ended os n s _) h = stop_command_ended-Covered v d c os n s w h
  Step-Covered w u (process_not_run os n s _) h =
      exec_error-Covered v d c os n _ s w (λ x k. exec_failed-Covered v d c os n s k) h
  Step-Covered w u (script_not_run os n s _) h =
      exec_error-Covered v d c os n _ s w (λ x k. ScriptedRefs.exec_failed-Covered v d c os n s k) h
  Step-Covered w u (process_run os n s _) h =
      exec_done-Covered v d c os n _ _ s w (λ x k. exec_succeeded-Covered v d c os n s k)
        (λ x k. handle_exit_status-Covered v d c os n s k) h
  Step-Covered w u (script_run os n s _) h =
      exec_done-Covered v d c os n _ _ s w (λ x k. k)
        (λ x k. handle_exit_status_scripted-Covered v d c os n s k) h
  Step-Covered w u (notified os n r s _) h = ready_event-Covered v d c os n r s w h
  Step-Covered w u (stop_not_run os n s _) h = stop_exec_error-Covered v d c os n s w h
  Step-Covered w u (stop_run os n s _) h = stop_exec_done-Covered v d c os n s w h

  run-Covered : (w u : World) → Reaches d w u → Covered g w → Covered g u
  run-Covered w u here h = h
  run-Covered w u (then_step {u = x} r k) h = Step-Covered x u k (run-Covered w x r h)

-- The adjacency lists of the links agree with each other. Then along any steps of the event
-- loop, in any order (starts, stops, pins, triggers, the queues, timers, and what the
-- watchers do when processes end, run, do not run or are ready), with the virtual functions
-- of every class of services, of triggered services and of those with a process as well: if
-- `required_by` of every service is no less than its explicit activation and the links that
-- hold it, with a known surplus, the same is so after.
pub Reaches-Covered :
    {g : Graph} (v : IsGraph g) (initial : ProcStatus) (os : Os) (n m : ℕ) (w u : World)
    → Reaches (all_classes initial os n m) w u
    → Covered g w
    → Covered g u
Reaches-Covered v initial os n m w u r h =
    run-Covered v (all_classes initial os n m) (all_classes-Covers v initial os n m) w u r h
