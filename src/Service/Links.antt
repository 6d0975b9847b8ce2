-- ===== src/Service/Links.antt =====
-- `add_dep`, `rm_dep` and `start_dep` of `service_record` in cdinit/dinit/src/includes/service.h.
--
-- The link that `add_dep` makes is a new number, as the code allocates a new list node.
pub mod Adding
pub mod Removing
use cdinit.Base.{
  ℕ, zero, suc, ◌==◌, if◌then◌else◌, Bool, true, false, ◌||◌, ◌&&◌, not, Option, none, some, List,
  [], ◌∷◌, ◌++◌, update,
}
use cdinit.Service.Types.{ServiceState, DependencyType, Link, Graph, World, is_starting, is_started}
use cdinit.Service.State.{Dispatch, to, is_ordering_type, is_regular, set_holding_acq, remove}
use cdinit.Service.Start.{require}
use cdinit.Service.DoStop.{release}

abbrev pub is_up : ServiceState → Bool
is_up st = is_started st || is_starting st

-- `emplace` before the place `i`.
abbrev pub insert_at : ℕ → ℕ → List ℕ → List ℕ
insert_at zero l ls = l ∷ ls
insert_at (suc i) l [] = l ∷ []
insert_at (suc i) l (k ∷ ls) = k ∷ insert_at i l ls

abbrev pub with_link : ℕ → ℕ → ℕ → DependencyType → ℕ → Graph → Graph
with_link l s t type i g = record {
  depends_on = update g.depends_on s (insert_at i l (g.depends_on s));
  dependents = update g.dependents t (g.dependents t ++ (l ∷ []));
  link = update g.link l (record { from = s; to = t; dep_type = type });
}

-- The new `service_dep` in both lists.
unfoldable pub link_services : ℕ → ℕ → ℕ → DependencyType → ℕ → World → World
link_services l s t type i w = record w {
  graph = with_link l s t type i w.graph;
  waiting_on = update w.waiting_on l false;
  holding_acq = update w.holding_acq l false;
}

-- `add_dep(to, dep_type, i)`, if memory is at hand.
unfoldable pub add_dep : ℕ → ℕ → ℕ → DependencyType → ℕ → World → World
add_dep l s t type i w0 =
    let w = link_services l s t type i w0 in
    let wanted = is_regular type || is_up (w.svc t).service_state in
    if not (is_ordering_type type) && wanted && is_up (w.svc s).service_state
    then set_holding_acq l true (require t w)
    else w

-- `start_dep`
unfoldable pub start_dep : ℕ → World → World
start_dep l w = if w.holding_acq l then w else set_holding_acq l true (require (to l w) w)

abbrev pub without_link : ℕ → ℕ → Graph → Graph
without_link s l g = record g {
  depends_on = update g.depends_on s (remove (g.depends_on s) l);
  dependents = update g.dependents (g.link l).to (remove (g.dependents (g.link l).to) l);
}

-- The link leaves both lists, and its flag ends with it.
unfoldable pub unlink_services : ℕ → ℕ → World → World
unlink_services s l w = record w {
  graph = without_link s l w.graph;
  holding_acq = update w.holding_acq l false;
}

-- `rm_dep(i)`, for the link `l` of the service `s`.
unfoldable pub rm_dep : Dispatch → ℕ → ℕ → World → World
rm_dep d s l w =
    let w1 = unlink_services s l w in if w.holding_acq l then release d (to l w) w1 else w1
