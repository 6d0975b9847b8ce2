-- ===== src/Service/Tests/References.antt =====
-- The accounting of references at two services, through the operations of
-- cdinit/dinit/src/service.cc.
use cdinit.Base.{false, []}
use cdinit.Service.DoStop.{do_stop, release}
use cdinit.Service.Start.{start}
use cdinit.Service.Refs.Defs.{Owes}
use cdinit.Service.Refs.DoStop.{do_stop-Owes, release-Owes}
use cdinit.Service.Refs.Starting.{start-Owes}
use cdinit.Service.Tests.{
  graph, graph-IsGraph, world, world-Owes, world-Owes_extra, processes, processes-Respects,
}

do_stop-Owes_example : Owes graph [] (do_stop processes false 1 (world 0))
do_stop-Owes_example =
    do_stop-Owes graph-IsGraph processes processes-Respects false 1 (world 0) world-Owes

release-Owes_example : Owes graph [] (release processes 1 (world 1))
release-Owes_example = release-Owes graph-IsGraph processes processes-Respects 1 world-Owes_extra

start-Owes_example : Owes graph [] (start 0 (world 0))
start-Owes_example = start-Owes graph-IsGraph 0 world-Owes
