-- ===== src/Service/Refs/DoStop.antt =====
-- The accounting of references through `do_stop` of cdinit/dinit/src/service.cc and its callers.
use cdinit.Base.{ℕ, zero, suc, Bool, false, List, ◌∷◌}
use cdinit.Service.Types.{Graph, World}
use cdinit.Service.State.{Dispatch}
use cdinit.Service.DoStop.{
  decide_restart, set_stopping, give_up_start, finish_stop, do_stop_with, do_stop_fuel, do_stop,
  release, restart,
}
use cdinit.Service.Refs.Defs.{Owes, Covered, IsGraph}
use cdinit.Service.Refs.Writes.{modify-Owes, run_out_of_fuel-Owes}
use cdinit.Service.Refs.Stopping.{
  writes, if-Owes, if-pair-Owes, release_explicit-Owes, release_stopping-Owes, stop_dependents-Owes,
}

-- The virtual functions that a stop calls keep the accounts.
pub record Respects (g : Graph) (d : Dispatch) : Type 0 where
  pub interrupt_start_keeps :
      (p : List ℕ) (s : ℕ) (w : World) → Owes g p w → Owes g p (d.interrupt_start s w).1
  pub check_restart_keeps :
      (p : List ℕ) (s : ℕ) (w : World) → Owes g p w → Owes g p (d.check_restart s w).1
  pub becoming_inactive_keeps :
      (p : List ℕ) (s : ℕ) (w : World) → Owes g p w → Owes g p (d.becoming_inactive s w)

-- All of them do.
pub record RespectsAll (g : Graph) (d : Dispatch) : Type 0 where
  pub within_stop : Respects g d
  pub bring_up_keeps : (p : List ℕ) (s : ℕ) (w : World) → Owes g p w → Owes g p (d.bring_up s w).1
  pub bring_down_keeps : (p : List ℕ) (s : ℕ) (w : World) → Owes g p w → Owes g p (d.bring_down s w)
  pub acquired_console_keeps :
      (p : List ℕ) (s : ℕ) (w : World) → Owes g p w → Owes g p (d.acquired_console s w)

-- Those that may process the queues keep the accounts up to a surplus.
pub record Covers (g : Graph) (d : Dispatch) : Type 0 where
  pub within_stop : Respects g d
  pub bring_up_covers : (s : ℕ) (w : World) → Covered g w → Covered g (d.bring_up s w).1
  pub bring_down_covers : (s : ℕ) (w : World) → Covered g w → Covered g (d.bring_down s w)
  pub acquired_console_covers :
      (s : ℕ) (w : World) → Covered g w → Covered g (d.acquired_console s w)

module _ {g : Graph} (v : IsGraph g) (d : Dispatch) (c : Respects g d) {p : List ℕ} where
  decide_restart-Owes :
      (with_restart : Bool) (s : ℕ) {w : World}
      → Owes g p w
      → Owes g p (decide_restart d with_restart s w).1
  unfolding decide_restart
  decide_restart-Owes with_restart s {w} h =
      search (if-pair-Owes, modify-Owes, c.check_restart_keeps) depth 9

  set_stopping-Owes : (b : Bool) (s : ℕ) {w : World} → Owes g p w → Owes g p (set_stopping d b s w)
  unfolding set_stopping
  set_stopping-Owes b s h = search writes depth 9

  give_up_start-Owes : (s : ℕ) {w : World} → Owes g p w → Owes g p (give_up_start d s w).1
  unfolding give_up_start
  give_up_start-Owes s {w} h = search (writes, if-pair-Owes, c.interrupt_start_keeps) depth 12

  finish_stop-Owes : (b : Bool) (s : ℕ) {w : World} → Owes g p w → Owes g p (finish_stop d b s w)
  unfolding finish_stop
  finish_stop-Owes b s h = search (if-Owes, set_stopping-Owes, give_up_start-Owes) depth 9

  do_stop_with-Owes :
      (stop : ℕ → World → World) (with_restart : Bool) (s : ℕ) {w : World}
      → ((u : ℕ) (x : World) → Owes g p x → Owes g p (stop u x))
      → Owes g p w
      → Owes g p (do_stop_with d stop with_restart s w)
  unfolding do_stop_with
  do_stop_with-Owes stop with_restart s {w} keep h =
      search
        (
          if-Owes,
          modify-Owes,
          decide_restart-Owes,
          release_explicit-Owes,
          stop_dependents-Owes v,
          finish_stop-Owes,
        )
        depth 14

  pub do_stop_fuel-Owes :
      (n : ℕ) (with_restart : Bool) (s : ℕ) (w : World)
      → Owes g p w
      → Owes g p (do_stop_fuel d n with_restart s w)
  unfolding do_stop_fuel
  do_stop_fuel-Owes zero with_restart s w h = run_out_of_fuel-Owes h
  do_stop_fuel-Owes (suc n) with_restart s w h =
      do_stop_with-Owes (do_stop_fuel d n false) with_restart s (do_stop_fuel-Owes n false) h

  -- The adjacency lists of the links agree with each other, and the virtual functions that
  -- a stop calls keep the accounts. Then `do_stop` keeps the accounts: if in every service
  -- `required_by` is 1 for the explicit activation, plus the dependents' links that hold
  -- the service, plus what is still owed for it, the same is so after.
  pub do_stop-Owes :
      (with_restart : Bool) (s : ℕ) (w : World) → Owes g p w → Owes g p (do_stop d with_restart s w)
  unfolding do_stop
  do_stop-Owes with_restart s w h = do_stop_fuel-Owes _ with_restart s w h

  -- The adjacency lists of the links agree with each other, and the virtual functions that
  -- a stop calls keep the accounts. Then `release` pays off one reference that is owed for
  -- the service, and keeps the accounts otherwise.
  pub release-Owes : (s : ℕ) {w : World} → Owes g (s ∷ p) w → Owes g p (release d s w)
  unfolding release
  release-Owes s h = release_stopping-Owes (do_stop d false) s (do_stop-Owes false) h

  pub restart-Owes : (s : ℕ) {w : World} → Owes g p w → Owes g p (restart d s w).1
  unfolding restart
  restart-Owes s h = search (if-pair-Owes, do_stop-Owes, modify-Owes) depth 9
