-- ===== src/Service/Refs/Classes.antt =====
-- The accounting of references through the virtual functions of all classes of services, tied together.
use cdinit.Base.{ℕ, zero, suc, List}
use cdinit.Service.Types.{Graph, World, ProcStatus}
use cdinit.Service.State.{Dispatch, run_out_of_fuel}
use cdinit.Service.Process.{Os}
use cdinit.Service.Process.Base.{becoming_inactive}
use cdinit.Service.Process.Methods.{methods}
use cdinit.Service.Classes.{bring_up, stalled, entered, dispatch, all_classes}
use cdinit.Service.Refs.Defs.{Owes, Covered, IsGraph}
use cdinit.Service.Refs.Writes.{run_out_of_fuel-Owes}
use cdinit.Service.Refs.Stopping.{if-Owes, if-pair-Owes}
use cdinit.Service.Refs.DoStop.{Respects, RespectsAll, Covers}
use cdinit.Service.Refs.Ending.{started-Owes, stopped-Owes, take_console-Owes}
use cdinit.Service.Refs.Covering.{
  if-Covered_lem, if-pair-Covered, started-Covered, stopped-Covered, take_console-Covered,
}
use cdinit.Service.Refs.Process.{
  set_proc-Owes, interrupt_start-Owes, check_restart-Owes, bring_up-Covered,
}
use cdinit.Service.Refs.Process.Plain.{bring_down-Covered}
use cdinit.Service.Refs.Process.Scripted as ScriptedRefs

becoming_inactive-Owes :
    {g : Graph} {p : List ℕ} (s : ℕ) {w : World} → Owes g p w → Owes g p (becoming_inactive s w)
unfolding becoming_inactive
becoming_inactive-Owes s h = set_proc-Owes s _ h

run_out_of_fuel-Covered : {g : Graph} (w : World) → Covered g w → Covered g (run_out_of_fuel w)
run_out_of_fuel-Covered w h = (h.0, run_out_of_fuel-Owes h.1)

module _ {g : Graph} (v : IsGraph g) where
  -- The virtual functions of the services with a process, if those of all services that they call do.
  pub methods-Covers : (os : Os) (n : ℕ) (d : Dispatch) → Covers g d → Covers g (methods os n d)
  unfolding methods
  methods-Covers os n d c = record {
    within_stop = record {
      interrupt_start_keeps =
          λ p s w h. search (if-pair-Owes, interrupt_start-Owes, ScriptedRefs.interrupt_start-Owes);
      check_restart_keeps = λ p s w h. search (if-pair-Owes, check_restart-Owes);
      becoming_inactive_keeps = λ p s w h. becoming_inactive-Owes s h;
    };
    bring_up_covers = λ s w h. bring_up-Covered v d c os n s h;
    bring_down_covers = λ s w h.
        search (
          if-Covered_lem,
          bring_down-Covered v d c os n,
          ScriptedRefs.bring_down-Covered v d c os n,
        );
    acquired_console_covers = c.acquired_console_covers;
  }

  stalled-Covers : (initial : ProcStatus) → Covers g (stalled initial)
  unfolding stalled
  stalled-Covers initial = record {
    within_stop = record {
      interrupt_start_keeps = λ p s w h. run_out_of_fuel-Owes h;
      check_restart_keeps = λ p s w h. run_out_of_fuel-Owes h;
      becoming_inactive_keeps = λ p s w h. run_out_of_fuel-Owes h;
    };
    bring_up_covers = λ s w h. run_out_of_fuel-Covered w h;
    bring_down_covers = λ s w h. run_out_of_fuel-Covered w h;
    acquired_console_covers = λ s w h. run_out_of_fuel-Covered w h;
  }

  module _ (initial : ProcStatus) (processes : Dispatch → Dispatch) where
    entered-Respects :
        (d : Dispatch) → Respects g (processes d) → Respects g (entered initial processes d)
    unfolding entered
    entered-Respects d e = record {
      interrupt_start_keeps = λ p s w h. search (if-pair-Owes, e.interrupt_start_keeps);
      check_restart_keeps = λ p s w h. search (if-pair-Owes, e.check_restart_keeps);
      becoming_inactive_keeps = λ p s w h. search (if-Owes, e.becoming_inactive_keeps);
    }

    entered-Covers :
        (d : Dispatch)
        → Covers g d
        → Covers g (processes d)
        → Covers g (entered initial processes d)
    unfolding entered bring_up
    entered-Covers d c e = record {
      within_stop = entered-Respects d e.within_stop;
      bring_up_covers = λ s w h.
          search (if-Covered_lem, if-pair-Covered, started-Covered v d c, e.bring_up_covers) depth
            12;
      bring_down_covers =
          λ s w h. search (if-Covered_lem, stopped-Covered v d c, e.bring_down_covers);
      acquired_console_covers = λ s w h. take_console-Covered v d c s h;
    }

    -- The same for accounts without a surplus.
    pub entered-RespectsAll :
        (d : Dispatch)
        → RespectsAll g d
        → RespectsAll g (processes d)
        → RespectsAll g (entered initial processes d)
    unfolding entered bring_up
    entered-RespectsAll d c e = record {
      within_stop = entered-Respects d e.within_stop;
      bring_up_keeps =
          λ p s w h. search (if-Owes, if-pair-Owes, started-Owes v d c, e.bring_up_keeps) depth 12;
      bring_down_keeps = λ p s w h. search (if-Owes, stopped-Owes v d c, e.bring_down_keeps);
      acquired_console_keeps = λ p s w h. take_console-Owes v d c s h;
    }

  -- The adjacency lists of the links agree with each other. Then the virtual functions of
  -- all classes of services, tied together to any depth, keep these accounts: where
  -- `required_by` of every service is no less than its explicit activation and the links
  -- that hold it, with a known surplus, the same is so after `bring_up`, `bring_down` and
  -- `acquired_console`; and `interrupt_start`, `check_restart` and `becoming_inactive`
  -- leave the surplus as it is.
  pub all_classes-Covers :
      (initial : ProcStatus) (os : Os) (n m : ℕ) → Covers g (all_classes initial os n m)
  unfolding all_classes dispatch
  all_classes-Covers initial os n zero = stalled-Covers initial
  all_classes-Covers initial os n (suc m) =
      let c = all_classes-Covers initial os n m in
      let d = all_classes initial os n m in
      entered-Covers initial (methods os n) d c (methods-Covers os n d c)
