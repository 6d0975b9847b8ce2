-- ===== src/Service/Detach.antt =====
-- What `stopped` of cdinit/dinit/src/service.cc does to the links by which dependents hold a service.
use cdinit.Base.{ℕ, if◌then◌else◌, Bool, true, false, ◌&&◌, ◌||◌, not, ◌≡◌, refl, List, contains}
use cdinit.Service.Types.{Service, Graph, World, Output}
use cdinit.Service.State.{
  is_hard, is_regular, is_milestone, modify, emit, add_prop_queue, add_transition_queue,
}

-- The graph of a world, and the flags of its links.
record Links (g : Graph) (holds waits : ℕ → Bool) (w : World) : Type 0 where
  same_graph : w.graph ≡ g
  holding : (k : ℕ) → w.holding_acq k ≡ holds k
  waiting : (k : ℕ) → w.waiting_on k ≡ waits k

module _ {g : Graph} {holds waits : ℕ → Bool} where
  module _ {w : World} where
    modify-Links :
        (s : ℕ) (f : Service → Service) → Links g holds waits w → Links g holds waits (modify s f w)
    unfolding modify
    modify-Links s f h = record {
      same_graph = h.same_graph;
      holding = h.holding;
      waiting = h.waiting;
    }

    emit-Links : (o : Output) → Links g holds waits w → Links g holds waits (emit o w)
    unfolding emit
    emit-Links o h = record { same_graph = h.same_graph; holding = h.holding; waiting = h.waiting }

    add_prop_queue-Links :
        (s : ℕ) → Links g holds waits w → Links g holds waits (add_prop_queue s w)
    unfolding add_prop_queue
    add_prop_queue-Links s h = record {
      same_graph = h.same_graph;
      holding = h.holding;
      waiting = h.waiting;
    }

    add_transition_queue-Links :
        (s : ℕ) → Links g holds waits w → Links g holds waits (add_transition_queue s w)
    unfolding add_transition_queue
    add_transition_queue-Links s h = record {
      same_graph = h.same_graph;
      holding = h.holding;
      waiting = h.waiting;
    }

  if-Links :
      (b : Bool) (x y : World)
      → (b ≡ true → Links g holds waits x)
      → (b ≡ false → Links g holds waits y)
      → Links g holds waits (if b then x else y)
  if-Links true x y h k = h refl
  if-Links false x y h k = k refl

ruleset link_writes =
    (if-Links, modify-Links, emit-Links, add_prop_queue-Links, add_transition_queue-Links)

-- `is_hard`, by the link alone.
abbrev hard : Graph → (ℕ → Bool) → ℕ → Bool
hard g waits l = is_regular (g.link l).dep_type || (is_milestone (g.link l).dep_type && waits l)

-- The flags behind the loop over some links.
abbrev let_go : Graph → (ℕ → Bool) → List ℕ → (ℕ → Bool) → ℕ → Bool
let_go g waits ls f k = if contains ls k && not (hard g waits k) then false else f k

-- The flag `f` of a link of the dependents of `s`: gone, unless the service restarts or the link is hard.
abbrev pub kept_flag : ℕ → World → Bool → (ℕ → Bool) → ℕ → Bool
kept_flag s w will_restart f l =
    if will_restart
    then f l
    else (if contains (w.graph.dependents s) l && not (is_hard l w) then false else f l)
