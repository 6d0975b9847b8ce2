-- ===== src/Service/State.antt =====
-- The short operations of cdinit/dinit/src/includes/service.h: the predicates of links and services,
-- writes to one field of one object, the queues of `service_set`, and the calls that subclasses
-- override.
use cdinit.Base.{
  ℕ, ◌==◌, if◌then◌else◌, Bool, true, false, ◌||◌, ◌&&◌, not, List, [], ◌∷◌, ◌++◌, update,
}
use cdinit.LinkedList.Queue
use cdinit.Service.Types.{
  Service, ServiceEvent, DependencyType, ProcStatus, World, Output, is_stopped, is_starting,
  increment, decrement,
}

module _ (l : ℕ) (w : World) where
  abbrev pub from : ℕ
  from = (w.graph.link l).from

  abbrev pub to : ℕ
  to = (w.graph.link l).to

abbrev pub is_regular : DependencyType → Bool
is_regular DependencyType.regular = true
is_regular _ = false

abbrev pub is_milestone : DependencyType → Bool
is_milestone DependencyType.milestone = true
is_milestone _ = false

abbrev pub is_ordering_type : DependencyType → Bool
is_ordering_type DependencyType.before = true
is_ordering_type DependencyType.after = true
is_ordering_type _ = false

-- `service_dep::is_hard`
unfoldable pub is_hard : ℕ → World → Bool
is_hard l w =
    is_regular (w.graph.link l).dep_type
    || (is_milestone (w.graph.link l).dep_type && w.waiting_on l)

-- `service_dep::is_only_ordering`
unfoldable pub is_only_ordering : ℕ → World → Bool
is_only_ordering l w = is_ordering_type (w.graph.link l).dep_type

abbrev pub is_start_pinned : Service → Bool
is_start_pinned x = x.pinned_started || x.dept_pinned_started

abbrev pub is_fundamentally_stopped : Service → Bool
is_fundamentally_stopped x =
    is_stopped x.service_state || (is_starting x.service_state && x.waiting_for_deps)

abbrev pub can_interrupt_stop : Service → Bool
can_interrupt_stop x = x.waiting_for_deps && not x.force_stop

-- A write to fields of one service.
unfoldable pub modify : ℕ → (Service → Service) → World → World
modify s f w = record w { svc = λ t. if t == s then f (w.svc t) else w.svc t }

unfoldable pub set_waiting_on : ℕ → Bool → World → World
set_waiting_on l b w = record w { waiting_on = update w.waiting_on l b }

unfoldable pub set_holding_acq : ℕ → Bool → World → World
set_holding_acq l b w = record w { holding_acq = update w.holding_acq l b }

unfoldable pub emit : Output → World → World
emit o w = record w { out = o ∷ w.out }

abbrev pub notify_listeners : ServiceEvent → ℕ → World → World
notify_listeners e s = emit (Output.notify s e)

unfoldable pub add_prop_queue : ℕ → World → World
add_prop_queue s w = record w { prop_queue = Queue.add w.prop_queue s }

unfoldable pub add_transition_queue : ℕ → World → World
add_transition_queue s w = record w { stop_queue = Queue.add w.stop_queue s }

unfoldable pub run_out_of_fuel : World → World
run_out_of_fuel w = record w { out_of_fuel = true }

-- `unlink` of an element that is in the list; `unqueue_console` tests that first.
abbrev pub remove : List ℕ → ℕ → List ℕ
remove [] e = []
remove (x ∷ r) e = if x == e then r else x ∷ remove r e

unfoldable pub unqueue_console : ℕ → World → World
unqueue_console s w = record w { console_queue = remove w.console_queue s }

abbrev pub is_nil : List ℕ → Bool
is_nil [] = true
is_nil (x ∷ r) = false

unfoldable pub append_console_queue : ℕ → World → World
unfolding emit
append_console_queue s w =
    let w' = record w { console_queue = w.console_queue ++ (s ∷ []) } in
    if is_nil w.console_queue then emit (Output.enable_console_log false) w' else w'

unfoldable pub service_active : World → World
service_active w = record w { active_services = increment w.active_services }

unfoldable pub service_inactive : World → World
service_inactive w = record w { active_services = decrement w.active_services }

-- A loop over a list of links.
unfoldable pub each : (ℕ → World → World) → List ℕ → World → World
each f [] w = w
each f (l ∷ ls) w = each f ls (f l w)

-- A loop that also computes the conjunction of what its rounds return.
unfoldable pub each_all : (ℕ → World → Bool × World) → List ℕ → World → Bool × World
each_all f [] w = (true, w)
each_all f (l ∷ ls) w = let (b, w1) = f l w in let (bs, w2) = each_all f ls w1 in (b && bs, w2)

-- The virtual functions of `service_record`, and `acquired_console`, which is reached again through
-- the console queue from within the functions that it calls.
pub record Dispatch : Type 0 where
  pub bring_up : ℕ → World → Bool × World
  pub bring_down : ℕ → World → World
  pub can_interrupt_start : ℕ → World → Bool
  pub interrupt_start : ℕ → World → Bool × World
  pub check_restart : ℕ → World → Bool × World
  pub becoming_inactive : ℕ → World → World
  pub get_exit_status : ℕ → World → ProcStatus
  pub acquired_console : ℕ → World → World
