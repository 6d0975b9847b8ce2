-- ===== src/Service/Events.antt =====
-- The steps of the event loop on the services: the commands of the control connections
-- (cdinit/dinit/src/service.cc, cdinit/dinit/src/includes/service.h), and what the watchers of
-- cdinit/dinit/src/proc-service.cc do about the processes, in any order.
--
-- A step names the service that it is about, how many rounds the queues are processed at most, and
-- what the system calls return. Which of the watchers a service has depends on its class: the steps
-- allow those of both.
pub mod Covering
use cdinit.Base.{ℕ, Bool}
use cdinit.Service.Types.{World, ShutdownType, ProcStatus}
use cdinit.Service.State.{Dispatch}
use cdinit.Service.Commands.{
  pin_start, pin_stop, unpin, process_queues, start_service, stop_service, stop_all_services,
  set_trigger,
}
use cdinit.Service.Process.{Os}
use cdinit.Service.Process.Base.{timer_expired}
use cdinit.Service.Process.Plain.{exec_succeeded, exec_failed, handle_exit_status}
use cdinit.Service.Process.Scripted
use cdinit.Service.Process.Watchers.{
  Notified, child_ended, stop_command_ended, exec_error, exec_done, ready_event, stop_exec_error,
  stop_exec_done,
}

pub data Step (d : Dispatch) : World → World → Type 0 where
  started : (n s : ℕ) (w : World) → Step d w (start_service d n s w)
  stopped : (n s : ℕ) (w : World) → Step d w (stop_service d n s w)
  pinned_started : (s : ℕ) (w : World) → Step d w (pin_start s w)
  pinned_stopped : (s : ℕ) (w : World) → Step d w (pin_stop s w)
  unpinned : (n s : ℕ) (w : World) → Step d w (unpin d n s w)
  all_stopped : (n : ℕ) (type : ShutdownType) (w : World) → Step d w (stop_all_services d n type w)
  triggered : (b : Bool) (s : ℕ) (w : World) → Step d w (set_trigger d b s w)
  processed : (n : ℕ) (w : World) → Step d w (process_queues d n w)
  timed_out : (os : Os) (n s : ℕ) (w : World) → Step d w (timer_expired os d n s w)
  process_ended :
      (os : Os) (n : ℕ) (status : ProcStatus) (s : ℕ) (w : World)
      → Step d w (child_ended d n (handle_exit_status os d n) status s w)
  script_ended :
      (os : Os) (n : ℕ) (status : ProcStatus) (s : ℕ) (w : World)
      → Step d w (child_ended d n (Scripted.handle_exit_status os d n) status s w)
  stop_ended : (os : Os) (n s : ℕ) (w : World) → Step d w (stop_command_ended d n os s w)
  process_not_run :
      (os : Os) (n s : ℕ) (w : World) → Step d w (exec_error d n (exec_failed os d n) s w)
  script_not_run :
      (os : Os) (n s : ℕ) (w : World) → Step d w (exec_error d n (Scripted.exec_failed os d n) s w)
  process_run :
      (os : Os) (n s : ℕ) (w : World)
      → Step d w (exec_done d n (exec_succeeded os d n) (handle_exit_status os d n) s w)
  script_run :
      (os : Os) (n s : ℕ) (w : World)
      → Step d w (exec_done d n (λ s w. w) (Scripted.handle_exit_status os d n) s w)
  notified : (os : Os) (n : ℕ) (r : Notified) (s : ℕ) (w : World) → Step d w (ready_event d n r s w)
  stop_not_run : (os : Os) (n s : ℕ) (w : World) → Step d w (stop_exec_error d n s w)
  stop_run : (os : Os) (n s : ℕ) (w : World) → Step d w (stop_exec_done d n os s w)

-- Any number of steps.
pub data Reaches (d : Dispatch) : World → World → Type 0 where
  here : {w : World} → Reaches d w w
  then_step : {w u x : World} → Reaches d w u → Step d u x → Reaches d w x
