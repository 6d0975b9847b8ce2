-- ===== src/Service/Refs/Process.antt =====
-- The accounting of references through the services with a process of
-- cdinit/dinit/src/baseproc-service.cc and cdinit/dinit/src/proc-service.cc.
pub mod Plain
pub mod Scripted
use cdinit.Base.{
  ℕ, zero, suc, if◌then◌else◌, Bool, true, false, ◌&&◌, not, ◌≡◌, refl, List, [], ◌∷◌, Option, none,
  some, is_some,
}
use cdinit.Service.Types.{Graph, World, Service, Proc, Output}
use cdinit.Service.State.{Dispatch, modify, emit}
use cdinit.Service.Start.{initiate_start}
use cdinit.Service.Stop.{unrecoverable_stop}
use cdinit.Service.DoStop.{do_stop}
use cdinit.Service.Transition.{started, stopped, failed_to_start}
use cdinit.Service.Commands.{process_queues}
use cdinit.Service.Process.{Os, set_proc, end_timer, arm_timer}
use cdinit.Service.Process.Base.{
  spawned, kill_pg, interrupt_start, kill_with_fire, check_restart, start_ps_process, open_socket,
  first_start, restart_failed, do_restart, restart_ps_process, do_smooth_recovery, bring_up,
  handle_unexpected_termination, start_timed_out, timer_expired,
}
use cdinit.Service.Start.{fail_start}
use cdinit.Service.Refs.Defs.{Owes, Covered, IsGraph}
use cdinit.Service.Refs.Writes.{modify-Owes, emit-Owes}
use cdinit.Service.Refs.Stopping.{if-Owes, if-pair-Owes, unrecoverable_stop-Owes}
use cdinit.Service.Refs.DoStop.{Covers}
use cdinit.Service.Refs.Starting.{initiate_start-Owes, fail_start-Owes}
use cdinit.Service.Refs.Covering.{
  if-Covered_lem, if-pair-Covered, emit-Covered, modify-Covered, do_stop-Covered,
  fail_start-Covered, initiate_start-Covered, failed_to_start-Covered,
}
use cdinit.Service.Refs.Commands.{process_queues-Covered}

module _ {g : Graph} {p : List ℕ} {w : World} where
  pub set_proc-Owes : (s : ℕ) (f : Proc → Proc) → Owes g p w → Owes g p (set_proc s f w)
  unfolding set_proc
  set_proc-Owes s f h = record { same_graph = h.same_graph; counted = h.counted }

module _ {g : Graph} {p : List ℕ} {w : World} where
  pub end_timer-Owes : (s : ℕ) → Owes g p w → Owes g p (end_timer s w)
  unfolding end_timer
  end_timer-Owes s h = search (if-Owes, set_proc-Owes, emit-Owes)

  pub arm_timer-Owes : (s : ℕ) → Owes g p w → Owes g p (arm_timer s w)
  unfolding arm_timer
  arm_timer-Owes s h = search (set_proc-Owes, emit-Owes)

  pub kill_pg-Owes : (s k : ℕ) → Owes g p w → Owes g p (kill_pg s k w)
  unfolding kill_pg
  kill_pg-Owes s k h = emit-Owes _ h

pub ruleset process_writes = (
  if-Owes, if-pair-Owes, modify-Owes, set_proc-Owes, end_timer-Owes, arm_timer-Owes, kill_pg-Owes,
  emit-Owes,
)

module _ {g : Graph} {p : List ℕ} where
  pub interrupt_start-Owes : (s : ℕ) {w : World} → Owes g p w → Owes g p (interrupt_start s w).1
  unfolding interrupt_start
  interrupt_start-Owes s h = search process_writes depth 9

  kill_with_fire-Owes : (s : ℕ) {w : World} → Owes g p w → Owes g p (kill_with_fire s w)
  unfolding kill_with_fire
  kill_with_fire-Owes s h = search process_writes depth 9

  spawned-Owes : (k : Option ℕ) (s : ℕ) {w : World} → Owes g p w → Owes g p (spawned k s w).1
  unfolding spawned
  spawned-Owes none s h = h
  spawned-Owes (some k) s h = search process_writes

  module _ (os : Os) where
    pub check_restart-Owes : (s : ℕ) {w : World} → Owes g p w → Owes g p (check_restart os s w).1
    unfolding check_restart
    check_restart-Owes s h = search process_writes depth 9

    pub start_ps_process-Owes :
        (s : ℕ) {w : World} → Owes g p w → Owes g p (start_ps_process os s w).1
    unfolding start_ps_process
    start_ps_process-Owes s h = search (process_writes, spawned-Owes)

    open_socket-Owes : (s : ℕ) {w : World} → Owes g p w → Owes g p (open_socket os s w).1
    unfolding open_socket
    open_socket-Owes s h = search process_writes depth 9

    first_start-Owes : (s : ℕ) {w : World} → Owes g p w → Owes g p (first_start os s w).1
    unfolding first_start
    first_start-Owes s h = search (process_writes, start_ps_process-Owes) depth 12

module _ {g : Graph} {w : World} where
  pub set_proc-Covered : (s : ℕ) (f : Proc → Proc) → Covered g w → Covered g (set_proc s f w)
  set_proc-Covered s f h = (h.0, set_proc-Owes s f h.1)

  pub end_timer-Covered : (s : ℕ) → Covered g w → Covered g (end_timer s w)
  end_timer-Covered s h = (h.0, end_timer-Owes s h.1)

  pub kill_pg-Covered : (s k : ℕ) → Covered g w → Covered g (kill_pg s k w)
  kill_pg-Covered s k h = (h.0, kill_pg-Owes s k h.1)

  pub arm_timer-Covered : (s : ℕ) → Covered g w → Covered g (arm_timer s w)
  arm_timer-Covered s h = (h.0, arm_timer-Owes s h.1)

  pub unrecoverable_stop-Covered : (s : ℕ) → Covered g w → Covered g (unrecoverable_stop s w)
  unrecoverable_stop-Covered s h = (h.0, unrecoverable_stop-Owes s h.1)

  pub kill_with_fire-Covered : (s : ℕ) → Covered g w → Covered g (kill_with_fire s w)
  kill_with_fire-Covered s h = (h.0, kill_with_fire-Owes s h.1)

  module _ (os : Os) where
    pub start_ps_process-Covered : (s : ℕ) → Covered g w → Covered g (start_ps_process os s w).1
    start_ps_process-Covered s h = (h.0, start_ps_process-Owes os s h.1)

    open_socket-Covered : (s : ℕ) → Covered g w → Covered g (open_socket os s w).1
    open_socket-Covered s h = (h.0, open_socket-Owes os s h.1)

    first_start-Covered : (s : ℕ) → Covered g w → Covered g (first_start os s w).1
    first_start-Covered s h = (h.0, first_start-Owes os s h.1)

pub ruleset covered_writes = (
  if-Covered_lem, if-pair-Covered, set_proc-Covered, end_timer-Covered, arm_timer-Covered,
  kill_pg-Covered, emit-Covered, modify-Covered, unrecoverable_stop-Covered,
  start_ps_process-Covered,
)

module _ {g : Graph} (v : IsGraph g) (d : Dispatch) (c : Covers g d) (os : Os) (n : ℕ) where
  restart_failed-Covered :
      (b : Bool) (s : ℕ) {w : World} → Covered g w → Covered g (restart_failed os d n b s w)
  unfolding restart_failed
  restart_failed-Covered b s h =
      search (covered_writes, process_queues-Covered v d c, failed_to_start-Covered v d c) depth 9

  pub do_restart-Covered : (s : ℕ) {w : World} → Covered g w → Covered g (do_restart os d n s w)
  unfolding do_restart
  do_restart-Covered s h = search (covered_writes, restart_failed-Covered) depth 12

  restart_ps_process-Covered :
      (s : ℕ) {w : World} → Covered g w → Covered g (restart_ps_process os d n s w).1
  unfolding restart_ps_process
  restart_ps_process-Covered s h = search (covered_writes, do_restart-Covered) depth 9

  pub do_smooth_recovery-Covered :
      (s : ℕ) {w : World} → Covered g w → Covered g (do_smooth_recovery os d n s w)
  unfolding do_smooth_recovery
  do_smooth_recovery-Covered s h =
      search (covered_writes, restart_ps_process-Covered, process_queues-Covered v d c) depth 9

  -- The adjacency lists of the links agree with each other, and the virtual functions keep
  -- the accounts up to a surplus. Then for `bring_up` of a service with a process: if `required_by` of
  -- every service is no less than its explicit activation and the links that hold it, with
  -- a known surplus, the same is so after.
  pub bring_up-Covered : (s : ℕ) {w : World} → Covered g w → Covered g (bring_up os d n s w).1
  unfolding bring_up
  bring_up-Covered s h =
      search (if-pair-Covered, open_socket-Covered, restart_ps_process-Covered, first_start-Covered)
        depth 9

  pub handle_unexpected_termination-Covered :
      (s : ℕ) {w : World} → Covered g w → Covered g (handle_unexpected_termination os d n s w)
  unfolding handle_unexpected_termination
  handle_unexpected_termination-Covered s h =
      search
        (
          if-Covered_lem,
          modify-Covered,
          do_stop-Covered v d c,
          initiate_start-Covered,
          process_queues-Covered v d c,
        )
        depth 12

  interrupt_start-Covered : (s : ℕ) {w : World} → Covered g w → Covered g (d.interrupt_start s w).1
  interrupt_start-Covered s {w} h = (h.0, c.within_stop.interrupt_start_keeps h.0 s w h.1)

  start_timed_out-Covered :
      (s : ℕ) {w : World} → Covered g w → Covered g (start_timed_out os d n s w)
  unfolding start_timed_out
  start_timed_out-Covered s h =
      search (fail_start-Covered v d c, modify-Covered, interrupt_start-Covered) depth 9

  -- The adjacency lists of the links agree with each other, and the virtual functions keep
  -- the accounts up to a surplus. Then for `timer_expired`: if `required_by` of every service is no less
  -- than its explicit activation and the links that hold it, with a known surplus, the
  -- same is so after.
  pub timer_expired-Covered :
      (s : ℕ) {w : World} → Covered g w → Covered g (timer_expired os d n s w)
  unfolding timer_expired
  timer_expired-Covered s h =
      search
        (
          if-Covered_lem, set_proc-Covered, kill_with_fire-Covered, start_timed_out-Covered,
          do_restart-Covered,
        )
        depth 9
