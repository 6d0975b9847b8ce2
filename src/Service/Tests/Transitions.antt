-- ===== src/Service/Tests/Transitions.antt =====
-- The ends of transitions of cdinit/dinit/src/service.cc at two internal services.
use cdinit.Base.{ℕ, ◌==◌, if◌then◌else◌, Bool, true, false, ◌≡◌, refl, [], arith, inr}
use cdinit.Service.Types.{ServiceState, ServiceType, DependencyType, Service, Graph, World}
use cdinit.Service.State.{Dispatch, each, is_hard}
use cdinit.Service.Transition.{execute_transition, detach, detach_link}
use cdinit.Service.Propagation.{do_propagation}
use cdinit.Service.Classes.{entered}
use cdinit.Service.Detach.{kept_flag}
use cdinit.Service.Refs.Defs.{Owes, IsGraph}
use cdinit.Service.Refs.DoStop.{RespectsAll}
use cdinit.Service.Refs.Ending.{execute_transition-Owes}
use cdinit.Service.Refs.Propagation.{do_propagation-Owes}
use cdinit.Service.Refs.Classes.{entered-RespectsAll}
use cdinit.Service.Tests.{graph, graph-IsGraph, service, world, processes, status}

-- The first service waits softly for the second.
abbrev soft_graph : Graph
soft_graph = record graph {
  link = λ l. record { from = 0; to = 1; dep_type = DependencyType.soft };
}

soft_graph-IsGraph : IsGraph soft_graph
soft_graph-IsGraph = record {
  own = λ s l. ground arith;
  once = λ s. ground arith;
  once_on = λ s. ground arith;
  listed = λ s l. ground arith;
}

processes-RespectsAll : (g : Graph) → RespectsAll g processes
processes-RespectsAll g = record {
  within_stop = record {
    interrupt_start_keeps = λ p s w h. h;
    check_restart_keeps = λ p s w h. h;
    becoming_inactive_keeps = λ p s w h. h;
  };
  bring_up_keeps = λ p s w h. h;
  bring_down_keeps = λ p s w h. h;
  acquired_console_keeps = λ p s w h. h;
}

-- The functions of the base class; no service here has a process.
abbrev base : Dispatch
base = entered status (λ d. processes) processes

base-RespectsAll : (g : Graph) → IsGraph g → RespectsAll g base
base-RespectsAll g v =
    entered-RespectsAll v status (λ d. processes) processes (processes-RespectsAll g)
      (processes-RespectsAll g)

abbrev internal : ServiceState → ServiceState → Bool → ℕ → Service
internal state desired explicit required_by = record (service explicit required_by) {
  record_type = ServiceType.internal;
  service_state = state;
  desired_state = desired;
}

-- The second service stops, and the first one holds it still.
abbrev stopping : World
stopping = record (world 0) {
  graph = soft_graph;
  svc = λ s.
      if s == 0
      then service true 1
      else (if s == 1
          then internal ServiceState.stopping ServiceState.stopped false 1
          else service false 0);
}

stopping-Owes : Owes soft_graph [] stopping
stopping-Owes = record { same_graph = refl; counted = λ s. ground arith }

execute_transition-Owes_example : Owes soft_graph [] (execute_transition base 1 stopping)
execute_transition-Owes_example =
    execute_transition-Owes soft_graph-IsGraph base (base-RespectsAll soft_graph soft_graph-IsGraph)
      1 stopping-Owes

-- The first service starts, and requires the second one, which it does not hold yet.
abbrev requiring : World
requiring = record (world 0) {
  svc = λ s.
      if s == 0
      then record (internal ServiceState.starting ServiceState.started true 1) {
        prop_require = true;
        prop_start = true;
      }
      else (if s == 1
          then internal ServiceState.stopped ServiceState.stopped false 0
          else service false 0);
  holding_acq = λ l. false;
}

requiring-Owes : Owes graph [] requiring
requiring-Owes = record { same_graph = refl; counted = λ s. ground arith }

do_propagation-Owes_example : Owes graph [] (do_propagation base 0 requiring)
do_propagation-Owes_example =
    do_propagation-Owes graph-IsGraph base (base-RespectsAll graph graph-IsGraph) 0
      (λ e. (inr refl, tt)) requiring-Owes

-- The soft dependent lets go, a hard one holds on.
lets_go : kept_flag 1 stopping false stopping.holding_acq 0 ≡ false
unfolding is_hard
lets_go = refl

holds_on : (detach base false 1 (world 0)).holding_acq 0 ≡ true
unfolding detach each detach_link is_hard
holds_on = refl
