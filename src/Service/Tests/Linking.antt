-- ===== src/Service/Tests/Linking.antt =====
-- The operations on links of cdinit/dinit/src/includes/service.h at two services.
use cdinit.Base.{[], refl, arith}
use cdinit.Service.Types.{DependencyType}
use cdinit.Service.Links.{add_dep, start_dep, rm_dep, with_link, without_link}
use cdinit.Service.Links.Adding.{IsFresh, add_dep-Owes, start_dep-Owes}
use cdinit.Service.Links.Removing.{rm_dep-Owes}
use cdinit.Service.Refs.Defs.{Owes, IsGraph}
use cdinit.Service.Refs.DoStop.{Respects}
use cdinit.Service.Tests.{graph, graph-IsGraph, world, world-Owes, processes}

fresh : IsFresh 5 graph
fresh = record { no_dependent = λ s. ground arith; no_dependency = λ s. ground arith }

add_dep-Owes_example :
    IsGraph (with_link 5 0 2 DependencyType.soft 1 graph)
    × Owes
        (with_link 5 0 2 DependencyType.soft 1 graph)
        []
        (add_dep 5 0 2 DependencyType.soft 1 (world 0))
add_dep-Owes_example =
    add_dep-Owes 5 0 2 DependencyType.soft 1 graph-IsGraph fresh (world 0) world-Owes

start_dep-Owes_example : Owes graph [] (start_dep 0 (world 0))
start_dep-Owes_example = start_dep-Owes graph-IsGraph 0 0 (world 0) refl world-Owes

processes-Respects_without : Respects (without_link 0 0 graph) processes
processes-Respects_without = record {
  interrupt_start_keeps = λ p s w h. h;
  check_restart_keeps = λ p s w h. h;
  becoming_inactive_keeps = λ p s w h. h;
}

rm_dep-Owes_example :
    IsGraph (without_link 0 0 graph)
    × Owes (without_link 0 0 graph) [] (rm_dep processes 0 0 (world 0))
rm_dep-Owes_example =
    rm_dep-Owes 0 0 graph-IsGraph refl (λ u e. ground (arith, e)) processes
      processes-Respects_without (world 0) world-Owes
