-- ===== src/Service/Classes.antt =====
-- The virtual functions of `service_record` (internal services) and of `triggered_service` in
-- cdinit/dinit/src/service.cc and cdinit/dinit/src/includes/service.h, tied together.
--
-- The overrides of the process-based classes are the parameter `processes`, given the functions of all
-- services, which they call; `all_classes` fills it in. `initial` is the `proc_status_t` that is made
-- without arguments. The fuel counts how often the virtual functions are entered again from within
-- themselves.
use cdinit.Base.{ℕ, zero, suc, if◌then◌else◌, Bool, true, false}
use cdinit.Service.Types.{ServiceType, ProcStatus, World}
use cdinit.Service.Process.{Os}
use cdinit.Service.Process.Methods.{methods}
use cdinit.Service.State.{Dispatch, run_out_of_fuel}
use cdinit.Service.Transition.{started, stopped, take_console}

abbrev pub is_internal : ServiceType → Bool
is_internal ServiceType.internal = true
is_internal ServiceType.placeholder = true
is_internal _ = false

abbrev pub is_triggered_type : ServiceType → Bool
is_triggered_type ServiceType.triggered = true
is_triggered_type _ = false

abbrev pub is_plain : ServiceType → Bool
is_plain ServiceType.process = false
is_plain ServiceType.bgprocess = false
is_plain ServiceType.scripted = false
is_plain _ = true

unfoldable pub stalled : ProcStatus → Dispatch
stalled initial = record {
  bring_up = λ s w. (true, run_out_of_fuel w);
  bring_down = λ s w. run_out_of_fuel w;
  can_interrupt_start = λ s w. true;
  interrupt_start = λ s w. (true, run_out_of_fuel w);
  check_restart = λ s w. (true, run_out_of_fuel w);
  becoming_inactive = λ s w. run_out_of_fuel w;
  get_exit_status = λ s w. initial;
  acquired_console = λ s w. run_out_of_fuel w;
}

module _ (initial : ProcStatus) (processes : Dispatch → Dispatch) where
  -- `service_record::bring_up`, and `triggered_service::bring_up`
  unfoldable pub bring_up : Dispatch → ℕ → World → Bool × World
  bring_up d s w =
      let x = w.svc s in
      let on_trigger = if x.is_triggered then started d s w else w in
      let plain = if is_triggered_type x.record_type then on_trigger else started d s w in
      if is_plain x.record_type then (true, plain) else (processes d).bring_up s w

  unfoldable pub can_interrupt_start : Dispatch → ℕ → World → Bool
  can_interrupt_start d s w =
      let x = w.svc s in
      if is_internal x.record_type
      then x.waiting_for_deps
      else (if is_triggered_type x.record_type then true else (processes d).can_interrupt_start s w)

  -- One entry, with `d` for the calls within it.
  unfoldable pub entered : Dispatch → Dispatch
  unfolding bring_up can_interrupt_start
  entered d =
      let p = processes d in
      record {
        bring_up = bring_up d;
        bring_down =
            λ s w. if is_plain (w.svc s).record_type then stopped d s w else p.bring_down s w;
        can_interrupt_start = can_interrupt_start d;
        interrupt_start =
            λ s w. if is_plain (w.svc s).record_type then (true, w) else p.interrupt_start s w;
        check_restart =
            λ s w. if is_plain (w.svc s).record_type then (true, w) else p.check_restart s w;
        becoming_inactive =
            λ s w. if is_plain (w.svc s).record_type then w else p.becoming_inactive s w;
        get_exit_status =
            λ s w. if is_plain (w.svc s).record_type then initial else p.get_exit_status s w;
        acquired_console = take_console d;
      }

  unfoldable pub dispatch : ℕ → Dispatch
  unfolding entered stalled
  dispatch zero = stalled initial
  dispatch (suc n) = entered (dispatch n)

-- The virtual functions of the program, where the queues are processed `n` rounds at most at a time.
unfoldable pub all_classes : ProcStatus → Os → ℕ → ℕ → Dispatch
unfolding dispatch
all_classes initial os n m = dispatch initial (methods os n) m
