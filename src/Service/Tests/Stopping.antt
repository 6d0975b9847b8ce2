-- ===== src/Service/Tests/Stopping.antt =====
-- What a stop does at two services, in cdinit/dinit/src/service.cc.
use cdinit.Base.{◌≤◌, false, ◌≡◌, refl, [], ◌∷◌, arith, inl}
use cdinit.Service.DoStop.{do_stop, release}
use cdinit.Service.Fuel.Enough.{do_stop_enough, IsCalm}
use cdinit.Service.Moves.Defs.{Moved}
use cdinit.Service.Moves.Process.{process-IsStill}
use cdinit.Service.Process.Base.{interrupt_start, check_restart}
use cdinit.Service.Moves.Frozen.{IsStill}
use cdinit.Service.Moves.DoStop.{release-Moved}
use cdinit.Service.Refs.Defs.{held}
use cdinit.Service.Active.{become_inactive-active}
use cdinit.Service.Transition.{become_inactive}
use cdinit.Service.Types.{pos}
use cdinit.Service.Tests.{graph, world, processes, os}

processes-IsCalm : IsCalm graph (0 ∷ 1 ∷ []) processes
processes-IsCalm = record { interrupt_start_calm = λ m s w h. h; check_restart_calm = λ m s w h. h }

processes-IsStill : IsStill processes
processes-IsStill = record {
  interrupt_start_halts = λ s w. record { keeps_pins = λ t. refl; halts = λ t. inl refl };
  interrupt_start_still = λ s w e. record { same_pins = λ t. refl; same_state = λ t. refl };
  check_restart_still = λ s w. record { same_pins = λ t. refl; same_state = λ t. refl };
}

do_stop_enough_example :
    ((do_stop processes false 1 (world 0)).out_of_fuel ≡ false)
    × (held (λ t. ((do_stop processes false 1 (world 0)).svc t).start_explicit) (0 ∷ 1 ∷ [])
        ≤ held (λ t. ((world 0).svc t).start_explicit) (0 ∷ 1 ∷ []))
do_stop_enough_example =
    do_stop_enough (world 0) processes (ground arith) (λ l. ground arith) processes-IsCalm refl
      false 1

release-Moved_example : Moved (world 1) (release processes 1 (world 1))
release-Moved_example = release-Moved processes processes-IsStill 1 (world 1)

become_inactive-active_example : (become_inactive processes 0 (world 0)).active_services ≡ pos 2
become_inactive-active_example = become_inactive-active processes 0 (world 0) refl

process-IsStill_example :
    IsStill
      (record processes { interrupt_start = interrupt_start; check_restart = check_restart os })
process-IsStill_example = process-IsStill os processes
