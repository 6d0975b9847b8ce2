-- ===== src/Service/Refs/Process/Plain.antt =====
-- The accounting of references through `process_service` of cdinit/dinit/src/proc-service.cc, and
-- through the watchers.
use cdinit.Base.{ℕ, List, Option, none, some}
use cdinit.Service.Types.{Graph, World, ProcStatus}
use cdinit.Service.State.{Dispatch}
use cdinit.Service.Process.{Os, end_timer}
use cdinit.Service.Process.Plain.{
  spawned_stop, close_notification, stop_in_progress, start_stop_process, signal_and_wait,
  terminate, bring_down, exec_succeeded, exec_failed, exit_stopping, exit_started,
  handle_exit_status, handle_stop_exit,
}
use cdinit.Service.Process.Watchers.{
  Notified, data_read, end_of_file, again, consumed, child_ended, stop_command_ended, exec_error,
  exec_done, not_ready, notified, ready_event, stop_command_failed, stop_exec_error, stop_exec_done,
}
use cdinit.Service.Refs.Defs.{Owes, Covered, IsGraph}
use cdinit.Service.Refs.DoStop.{Covers}
use cdinit.Service.Refs.Covering.{
  if-Covered_lem, emit-Covered, started-Covered, stopped-Covered, failed_to_start-Covered,
  initiate_start-Covered, fail_start-Covered,
}
use cdinit.Service.Refs.Commands.{process_queues-Covered}
use cdinit.Service.Refs.Process.{
  process_writes, end_timer-Owes, unrecoverable_stop-Covered, end_timer-Covered, kill_pg-Covered,
  covered_writes, set_proc-Covered, do_smooth_recovery-Covered,
  handle_unexpected_termination-Covered,
}

module _ {g : Graph} {p : List ℕ} where
  spawned_stop-Owes :
      (k : Option ℕ) (s : ℕ) {w : World} → Owes g p w → Owes g p (spawned_stop k s w).1
  unfolding spawned_stop
  spawned_stop-Owes none s h = h
  spawned_stop-Owes (some k) s h = search process_writes

  close_notification-Owes : (s : ℕ) {w : World} → Owes g p w → Owes g p (close_notification s w)
  unfolding close_notification
  close_notification-Owes s h = search process_writes

  stop_in_progress-Owes : (s : ℕ) {w : World} → Owes g p w → Owes g p (stop_in_progress s w)
  unfolding stop_in_progress
  stop_in_progress-Owes s h = search process_writes depth 9

module _ {g : Graph} {w : World} where
  spawned_stop-Covered : (k : Option ℕ) (s : ℕ) → Covered g w → Covered g (spawned_stop k s w).1
  spawned_stop-Covered k s h = (h.0, spawned_stop-Owes k s h.1)

  close_notification-Covered : (s : ℕ) → Covered g w → Covered g (close_notification s w)
  close_notification-Covered s h = (h.0, close_notification-Owes s h.1)

  stop_in_progress-Covered : (s : ℕ) → Covered g w → Covered g (stop_in_progress s w)
  stop_in_progress-Covered s h = (h.0, stop_in_progress-Owes s h.1)

module _ {g : Graph} (v : IsGraph g) (d : Dispatch) (c : Covers g d) (os : Os) (n : ℕ) where
  signal_and_wait-Covered :
      (s : ℕ) {w : World} → Covered g w → Covered g (signal_and_wait os d n s w)
  unfolding signal_and_wait
  signal_and_wait-Covered s h =
      search (if-Covered_lem, stopped-Covered v d c, stop_in_progress-Covered)

  terminate-Covered : (s : ℕ) {w : World} → Covered g w → Covered g (terminate os d n s w)
  unfolding terminate start_stop_process
  terminate-Covered s h =
      search
        (covered_writes, signal_and_wait-Covered, stop_in_progress-Covered, spawned_stop-Covered)
        depth 12

  pub bring_down-Covered : (s : ℕ) {w : World} → Covered g w → Covered g (bring_down os d n s w)
  unfolding bring_down
  bring_down-Covered s h =
      search
        (if-Covered_lem, emit-Covered, set_proc-Covered, terminate-Covered, stopped-Covered v d c)
        depth 12

  pub exec_succeeded-Covered :
      (s : ℕ) {w : World} → Covered g w → Covered g (exec_succeeded os d n s w)
  unfolding exec_succeeded
  exec_succeeded-Covered s h =
      search
        (
          if-Covered_lem,
          set_proc-Covered,
          end_timer-Covered,
          started-Covered v d c,
          bring_down-Covered,
        )
        depth 12

  pub exec_failed-Covered : (s : ℕ) {w : World} → Covered g w → Covered g (exec_failed os d n s w)
  unfolding exec_failed
  exec_failed-Covered s h =
      search
        (
          covered_writes,
          close_notification-Covered,
          failed_to_start-Covered v d c,
          unrecoverable_stop-Covered,
        )
        depth 12

  exit_stopping-Covered : (s : ℕ) {w : World} → Covered g w → Covered g (exit_stopping os d n s w)
  unfolding exit_stopping
  exit_stopping-Covered s h =
      search (if-Covered_lem, set_proc-Covered, stopped-Covered v d c, initiate_start-Covered) depth
        12

  handle_stop_exit-Covered :
      (s : ℕ) {w : World} → Covered g w → Covered g (handle_stop_exit os d n s w)
  unfolding handle_stop_exit
  handle_stop_exit-Covered s h =
      search (if-Covered_lem, set_proc-Covered, stopped-Covered v d c) depth 12

  not_ready-Covered : (s : ℕ) {w : World} → Covered g w → Covered g (not_ready d n s w)
  unfolding not_ready
  not_ready-Covered s h =
      c.bring_down_covers s _ (search (covered_writes, fail_start-Covered v d c) depth 12)

  notified-Covered :
      (r : Notified) (s : ℕ) {w : World} → Covered g w → Covered g (notified d n r s w)
  unfolding notified
  notified-Covered data_read s h = started-Covered v d c s (end_timer-Covered s h)
  notified-Covered end_of_file s h = not_ready-Covered s h
  notified-Covered again s h = h

  consumed-Covered : (r : Notified) (s : ℕ) {w : World} → Covered g w → Covered g (consumed r s w)
  unfolding consumed
  consumed-Covered data_read s h = h
  consumed-Covered end_of_file s h = close_notification-Covered s h
  consumed-Covered again s h = h

  check_restart-Covered : (s : ℕ) {w : World} → Covered g w → Covered g (d.check_restart s w).1
  check_restart-Covered s {w} h = (h.0, c.within_stop.check_restart_keeps h.0 s w h.1)

  exit_started-Covered : (s : ℕ) {w : World} → Covered g w → Covered g (exit_started os d n s w)
  unfolding exit_started
  exit_started-Covered s h =
      search
        (
          covered_writes,
          check_restart-Covered,
          do_smooth_recovery-Covered v d c os n,
          handle_unexpected_termination-Covered v d c os n,
          process_queues-Covered v d c,
        )
        depth 9

  entered-Covered :
      (s : ℕ) {w : World} → Covered g w → Covered g (end_timer s (close_notification s w))
  entered-Covered s h = (h.0, end_timer-Owes s (close_notification-Owes s h.1))

  -- The adjacency lists of the links agree with each other, and the virtual functions keep
  -- the accounts up to a surplus. Then for `handle_exit_status` of a process service: if `required_by` of
  -- every service is no less than its explicit activation and the links that hold it, with
  -- a known surplus, the same is so after.
  pub handle_exit_status-Covered :
      (s : ℕ) {w : World} → Covered g w → Covered g (handle_exit_status os d n s w)
  unfolding handle_exit_status
  handle_exit_status-Covered s h =
      search
        (
          covered_writes,
          entered-Covered,
          exit_stopping-Covered,
          exit_started-Covered,
          failed_to_start-Covered v d c,
          process_queues-Covered v d c,
        )
        depth 9

  -- The adjacency lists of the links agree with each other, and the virtual functions keep
  -- the accounts up to a surplus. Then for the watcher of a child process, with any handler of the exit
  -- status of which the same is true: if `required_by` of every service is no less than
  -- its explicit activation and the links that hold it, with a known surplus, the same is
  -- so after.
  pub child_ended-Covered :
      (handle : ℕ → World → World) (status : ProcStatus) (s : ℕ) (w : World)
      → ((u : World) → Covered g u → Covered g (handle s u))
      → Covered g w
      → Covered g (child_ended d n handle status s w)
  unfolding child_ended
  child_ended-Covered handle status s w keep h =
      search (if-Covered_lem, set_proc-Covered, end_timer-Covered, keep) depth 9

  pub stop_command_ended-Covered :
      (s : ℕ) (w : World) → Covered g w → Covered g (stop_command_ended d n os s w)
  unfolding stop_command_ended
  stop_command_ended-Covered s w h =
      search
        (if-Covered_lem, set_proc-Covered, handle_stop_exit-Covered, process_queues-Covered v d c)
        depth 9

  pub exec_error-Covered :
      (failed : ℕ → World → World) (s : ℕ) (w : World)
      → ((u : World) → Covered g u → Covered g (failed s u))
      → Covered g w
      → Covered g (exec_error d n failed s w)
  unfolding exec_error
  exec_error-Covered failed s w keep h =
      search
        (if-Covered_lem, set_proc-Covered, end_timer-Covered, keep, process_queues-Covered v d c)
        depth 9

  pub exec_done-Covered :
      (succeeded handle : ℕ → World → World) (s : ℕ) (w : World)
      → ((u : World) → Covered g u → Covered g (succeeded s u))
      → ((u : World) → Covered g u → Covered g (handle s u))
      → Covered g w
      → Covered g (exec_done d n succeeded handle s w)
  unfolding exec_done
  exec_done-Covered succeeded handle s w keep keep' h =
      search (if-Covered_lem, set_proc-Covered, keep, keep', process_queues-Covered v d c) depth 9

  -- The adjacency lists of the links agree with each other, and the virtual functions keep
  -- the accounts up to a surplus. Then for the watcher of the readiness pipe: if `required_by` of every
  -- service is no less than its explicit activation and the links that hold it, with a
  -- known surplus, the same is so after.
  pub ready_event-Covered :
      (r : Notified) (s : ℕ) (w : World) → Covered g w → Covered g (ready_event d n r s w)
  unfolding ready_event
  ready_event-Covered r s w h =
      search (if-Covered_lem, notified-Covered, consumed-Covered, process_queues-Covered v d c)
        depth 9

  stop_command_failed-Covered :
      (s : ℕ) {w : World} → Covered g w → Covered g (stop_command_failed d n s w)
  unfolding stop_command_failed
  stop_command_failed-Covered s h =
      search (if-Covered_lem, set_proc-Covered, kill_pg-Covered, stopped-Covered v d c) depth 12

  -- The adjacency lists of the links agree with each other, and the virtual functions keep
  -- the accounts up to a surplus. Then for the watcher of the stop command's exec status, when it could
  -- not run: if `required_by` of every service is no less than its explicit activation and
  -- the links that hold it, with a known surplus, the same is so after.
  pub stop_exec_error-Covered :
      (s : ℕ) (w : World) → Covered g w → Covered g (stop_exec_error d n s w)
  unfolding stop_exec_error
  stop_exec_error-Covered s w h =
      search
        (
          if-Covered_lem,
          set_proc-Covered,
          stop_command_failed-Covered,
          process_queues-Covered v d c,
        )
        depth 9

  pub stop_exec_done-Covered :
      (s : ℕ) (w : World) → Covered g w → Covered g (stop_exec_done d n os s w)
  unfolding stop_exec_done
  stop_exec_done-Covered s w h =
      search
        (if-Covered_lem, set_proc-Covered, handle_stop_exit-Covered, process_queues-Covered v d c)
        depth 9
