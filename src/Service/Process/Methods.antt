-- ===== src/Service/Process/Methods.antt =====
-- The virtual functions of the services with a process, by class: `base_process_service` of
-- cdinit/dinit/src/baseproc-service.cc, `process_service` and `scripted_service` of
-- cdinit/dinit/src/proc-service.cc. `bgproc_service` has those of `process_service`.
use cdinit.Base.{ℕ, if◌then◌else◌, Bool, true, false, ◌||◌}
use cdinit.Service.Types.{ServiceType, World}
use cdinit.Service.State.{Dispatch}
use cdinit.Service.Process.{Os}
use cdinit.Service.Process.Base
use cdinit.Service.Process.Plain
use cdinit.Service.Process.Scripted

abbrev pub is_scripted : ServiceType → Bool
is_scripted ServiceType.scripted = true
is_scripted _ = false

-- `base_process_service::can_interrupt_start`
unfoldable pub can_interrupt_start : ℕ → World → Bool
can_interrupt_start s w =
    let x = w.svc s in
    (w.proc s).waiting_restart_timer || x.onstart_flags.start_interruptible || x.waiting_for_deps

-- With the virtual functions of all services, which these call in turn. No process waits for the
-- console itself: `acquired_console` is that of the base class.
unfoldable pub methods : Os → ℕ → Dispatch → Dispatch
unfolding can_interrupt_start
methods os n d = record {
  bring_up = λ s w. Base.bring_up os d n s w;
  bring_down = λ s w.
      if is_scripted (w.svc s).record_type
      then Scripted.bring_down os d n s w
      else Plain.bring_down os d n s w;
  can_interrupt_start = can_interrupt_start;
  interrupt_start = λ s w.
      if is_scripted (w.svc s).record_type
      then Scripted.interrupt_start s w
      else Base.interrupt_start s w;
  check_restart =
      λ s w. if is_scripted (w.svc s).record_type then (true, w) else Base.check_restart os s w;
  becoming_inactive = λ s w. Base.becoming_inactive s w;
  get_exit_status = λ s w. (w.proc s).exit_status;
  acquired_console = d.acquired_console;
}
