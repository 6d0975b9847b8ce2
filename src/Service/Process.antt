-- ===== src/Service/Process.antt =====
-- cdinit/dinit/src/baseproc-service.cc and cdinit/dinit/src/proc-service.cc: services with a process.
--
-- The calls of the operating system are the parameter `Os`. Log lines are left out.
pub mod Base
pub mod Plain
pub mod Scripted
pub mod Watchers
pub mod Methods
use cdinit.Base.{ℕ, ◌==◌, if◌then◌else◌, Bool, true, false, Option}
use cdinit.Service.Types.{World, Proc, Output}
use cdinit.Service.State.{emit}

-- `spawn` is the process ID when every call that `start_ps_process` makes succeeds, `none` when one
-- fails; `spawn_stop` is the same for `start_stop_process`. `bind_socket` tells whether the calls of
-- `open_socket` succeed, `time` is the monotonic clock.
pub record Os : Type 0 where
  pub spawn : ℕ → World → Option ℕ
  pub spawn_stop : ℕ → World → Option ℕ
  pub bind_socket : ℕ → World → Bool
  pub time : World → ℕ

unfoldable pub set_proc : ℕ → (Proc → Proc) → World → World
set_proc s f w = record w { proc = λ t. if t == s then f (w.proc t) else w.proc t }

-- `if (waiting_stopstart_timer) { stop_timer; waiting_stopstart_timer = false; }`
unfoldable pub end_timer : ℕ → World → World
end_timer s w =
    if (w.proc s).waiting_stopstart_timer
    then set_proc s (λ x. record x { waiting_stopstart_timer = false })
        (emit (Output.stop_timer s) w)
    else w

unfoldable pub arm_timer : ℕ → World → World
arm_timer s w =
    set_proc s (λ x. record x { waiting_stopstart_timer = true }) (emit (Output.arm_timer s) w)
