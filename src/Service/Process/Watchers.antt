-- ===== src/Service/Process/Watchers.antt =====
-- The event watchers of cdinit/dinit/src/proc-service.cc, each with the event that it is told.
--
-- The virtual functions that they call are parameters.
use cdinit.Base.{◌==◌, ℕ, if◌then◌else◌, false, none, is_some}
use cdinit.Service.Types.{World, ServiceState, ProcStatus, is_starting}
use cdinit.Service.State.{Dispatch, modify}
use cdinit.Service.Start.{fail_start}
use cdinit.Service.Transition.{started, stopped}
use cdinit.Service.Commands.{process_queues}
use cdinit.Service.Process.{Os, set_proc, end_timer}
use cdinit.Service.Process.Base.{kill_pg}
use cdinit.Service.Process.Plain.{handle_stop_exit, close_notification}

-- What a read of the notification pipe delivers.
pub data Notified : Type 0 where
  data_read end_of_file again : Notified

unfoldable pub consumed : Notified → ℕ → World → World
consumed data_read s w = w
consumed end_of_file s w = close_notification s w
consumed again s w = w

module _ (d : Dispatch) (n : ℕ) where
  -- `service_child_watcher::status_change`
  unfoldable pub child_ended : (ℕ → World → World) → ProcStatus → ℕ → World → World
  child_ended handle_exit_status status s w0 =
      let w = set_proc s (λ x. record x { pid = none; exit_status = status }) w0 in
      if (w.proc s).waiting_for_execstat then w else handle_exit_status s (end_timer s w)

  -- `stop_child_watcher::status_change`
  unfoldable pub stop_command_ended : Os → ℕ → World → World
  stop_command_ended os s w0 =
      let w = set_proc s (λ x. record x { stop_pid = none }) w0 in
      if (w.proc s).waiting_for_execstat
      then w
      else process_queues d n (handle_stop_exit os d n s w)

  -- `exec_status_pipe_watcher::fd_event`, if the pipe delivers an error, and if it does not.
  unfoldable pub exec_error : (ℕ → World → World) → ℕ → World → World
  exec_error exec_failed s w0 =
      let w = set_proc s (λ x. record x { waiting_for_execstat = false }) w0 in
      let w1 = if is_some (w.proc s).pid then end_timer s w else w in
      process_queues d n (exec_failed s (set_proc s (λ x. record x { pid = none }) w1))

  unfoldable pub exec_done : (ℕ → World → World) → (ℕ → World → World) → ℕ → World → World
  exec_done exec_succeeded handle_exit_status s w0 =
      let w = exec_succeeded s (set_proc s (λ x. record x { waiting_for_execstat = false }) w0) in
      process_queues d n (if is_some (w.proc s).pid then w else handle_exit_status s w)

  -- `ready_notify_watcher::fd_event`
  unfoldable pub not_ready : ℕ → World → World
  not_ready s w0 =
      let w = modify s (λ x. record x { service_state = ServiceState.stopping }) (end_timer s w0) in
      d.bring_down s (fail_start false s w)

  unfoldable pub notified : Notified → ℕ → World → World
  notified data_read s w = started d s (end_timer s w)
  notified end_of_file s w = not_ready s w
  notified again s w = w

  unfoldable pub ready_event : Notified → ℕ → World → World
  ready_event r s w =
      if is_starting (w.svc s).service_state
      then process_queues d n (notified r s w)
      else consumed r s w

  -- `stop_status_pipe_watcher::fd_event`, if the pipe delivers an error: the stop command did not run.
  unfoldable pub stop_command_failed : ℕ → World → World
  stop_command_failed s w0 =
      let w = set_proc s (λ x. record x { stop_pid = none }) w0 in
      let x = w.proc s in
      let signalled = if x.term_signal == 0 then w else kill_pg s x.term_signal w in
      let over = stopped d s (set_proc s (λ y. record y { stop_issued = false }) signalled) in
      if is_some x.pid then (if x.tracking_child then signalled else over) else w

  unfoldable pub stop_exec_error : ℕ → World → World
  stop_exec_error s w0 =
      let w = set_proc s (λ x. record x { waiting_for_execstat = false }) w0 in
      process_queues d n (if is_some (w.proc s).stop_pid then stop_command_failed s w else w)

  -- The same, if the stop command runs.
  unfoldable pub stop_exec_done : Os → ℕ → World → World
  stop_exec_done os s w0 =
      let w = set_proc s (λ x. record x { waiting_for_execstat = false }) w0 in
      process_queues d n (if is_some (w.proc s).stop_pid then w else handle_stop_exit os d n s w)
