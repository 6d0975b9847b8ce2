-- ===== src/Service/Tests/Handlers.antt =====
-- The services with a process of cdinit/dinit/src/proc-service.cc at a started service, whose process
-- ends with an error.
use cdinit.Base.{◌+◌, ◌≤◌, [], ◌∷◌, refl, arith}
use cdinit.Service.Process.Plain.{handle_exit_status}
use cdinit.Service.Process.Watchers.{child_ended}
use cdinit.Service.Types.{World}
use cdinit.Service.Commands.{start_service, stop_service}
use cdinit.Service.Events.{started, stopped, process_ended, here, then_step}
use cdinit.Service.Events.Covering.{Reaches-Covered}
use cdinit.Service.State.{Dispatch}
use cdinit.Service.Classes.{all_classes}
use cdinit.Service.Refs.Classes.{all_classes-Covers}
use cdinit.Service.Refs.DoStop.{Covers}
use cdinit.Service.Limit.{permitted, permitted_bound}
use cdinit.Service.Refs.Defs.{Covered}
use cdinit.Service.Tests.{graph, graph-IsGraph, world, world-Owes, os, status}

permitted_bound_example : permitted os (10 ∷ 20 ∷ 30 ∷ 99 ∷ []) 1 (world 0) + 1 ≤ 3
permitted_bound_example =
    permitted_bound os (10 ∷ 20 ∷ 30 ∷ 99 ∷ []) 1 100 3 (world 0)
      (record { begun = omega arith; limit = refl; within = omega arith }) (omega arith)
      (omega arith, (omega arith, (omega arith, (omega arith, tt))))

-- The virtual functions of all classes.
abbrev classes : Dispatch
classes = all_classes status os 4 6

-- A service is started, its process ends, and another one is stopped.
abbrev after_start : World
after_start = start_service classes 4 1 (world 0)

abbrev after_end : World
after_end = child_ended classes 4 (handle_exit_status os classes 4) status 1 after_start

Reaches-Covered_example : Covered graph (stop_service classes 4 0 after_end)
Reaches-Covered_example =
    Reaches-Covered graph-IsGraph status os 4 6 (world 0) (stop_service classes 4 0 after_end)
      (then_step
        (then_step (then_step here (started 4 1 (world 0)))
          (process_ended os 4 status 1 after_start))
        (stopped 4 0 after_end))
      ([], world-Owes)

all_classes-Covers_example : Covers graph (all_classes status os 4 6)
all_classes-Covers_example = all_classes-Covers graph-IsGraph status os 4 6
