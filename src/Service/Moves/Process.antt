-- ===== src/Service/Moves/Process.antt =====
-- What `interrupt_start` and `check_restart` of cdinit/dinit/src/baseproc-service.cc and
-- cdinit/dinit/src/includes/proc-service.h change of states and pins.
use cdinit.Base.{ℕ, true, ◌≡◌, arith}
use cdinit.Service.Types.{World}
use cdinit.Service.State.{Dispatch, modify, emit}
use cdinit.Service.Process.{Os, set_proc, end_timer, arm_timer}
use cdinit.Service.Process.Base.{interrupt_start, check_restart, kill_pg}
use cdinit.Service.Moves.Defs.{Frozen}
use cdinit.Service.Moves.Frozen.{IsStill, Halted}

module _ (s : ℕ) (w : World) where
  interrupt_start-Halted : Halted s w (interrupt_start s w).1
  unfolding interrupt_start set_proc modify emit kill_pg arm_timer end_timer
  interrupt_start-Halted = record { keeps_pins = λ t. ground arith; halts = λ t. ground arith }

  interrupt_start-Frozen : (interrupt_start s w).0 ≡ true → Frozen w (interrupt_start s w).1
  unfolding interrupt_start set_proc modify emit kill_pg arm_timer end_timer
  interrupt_start-Frozen e = record {
    same_pins = λ t. ground (arith, e);
    same_state = λ t. ground (arith, e);
  }

  check_restart-Frozen : (os : Os) → Frozen w (check_restart os s w).1
  unfolding check_restart set_proc modify
  check_restart-Frozen os = record { same_pins = λ t. ground arith; same_state = λ t. ground arith }

-- `interrupt_start` of a service with a process keeps every pin, moves at most its own
-- service, to STOPPING, and none if it returns true; `check_restart` of a process service
-- keeps every state and every pin.
pub process-IsStill :
    (os : Os) (d : Dispatch)
    → IsStill (record d { interrupt_start = interrupt_start; check_restart = check_restart os })
process-IsStill os d = record {
  interrupt_start_halts = interrupt_start-Halted;
  interrupt_start_still = interrupt_start-Frozen;
  check_restart_still = λ s w. check_restart-Frozen s w os;
}
