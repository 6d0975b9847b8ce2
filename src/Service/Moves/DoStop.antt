-- ===== src/Service/Moves/DoStop.antt =====
-- `do_stop` and `release` of cdinit/dinit/src/service.cc as moves of states.
use cdinit.Base.{
  ℕ, zero, suc, if◌then◌else◌, Bool, true, false, ◌≡◌, arith, Bool-cases, inl, inr, ◌∙◌, sym,
}
use cdinit.Service.Types.{World, is_started, is_starting}
use cdinit.Service.State.{Dispatch, is_start_pinned}
use cdinit.Service.DoStop.{
  decide_restart, set_stopping, give_up_start, finish_stop, do_stop_with, do_stop_fuel, do_stop,
  release,
}
use cdinit.Service.Moves.Defs.{
  Moved, Moved-refl, Frozen-Moved, if-Moved, if-pair-Moved, modify-Moved, to_stopping-Moved,
  run_out_of_fuel-Moved, is_running, add_transition_queue-Moved,
}
use cdinit.Service.Moves.Frozen.{IsStill, give_up_start-Frozen, give_up_start-Halted, Halted-Moved}
use cdinit.Service.Moves.Stopping.{
  release_explicit-Moved, release_stopping-Moved, stop_dependents-Moved,
}

module _ (d : Dispatch) (c : IsStill d) {w0 : World} where
  decide_restart-Moved :
      (b : Bool) (s : ℕ) {w : World} → Moved w0 w → Moved w0 (decide_restart d b s w).1
  unfolding decide_restart
  decide_restart-Moved b s h =
      search (if-pair-Moved, modify-Moved, Frozen-Moved, c.check_restart_still) depth 9

  set_stopping-Moved :
      (b : Bool) (s : ℕ) {w : World}
      → is_start_pinned (w0.svc s) ≡ false
      → is_running (w.svc s).service_state ≡ true
      → Moved w0 w
      → Moved w0 (set_stopping d b s w)
  unfolding set_stopping
  set_stopping-Moved b s e k h =
      search (if-Moved, add_transition_queue-Moved, to_stopping-Moved) depth 9

  finish_stop-Moved :
      (b : Bool) (s : ℕ) {w : World}
      → is_start_pinned (w0.svc s) ≡ false
      → Moved w0 w
      → Moved w0 (finish_stop d b s w)
  unfolding finish_stop
  finish_stop-Moved b s {w} e h =
      let w1 = (give_up_start d s w).1 in
      if-Moved (is_started (w.svc s).service_state) _ _
        (λ k. set_stopping-Moved b s e (ground arith) h)
        (λ _.
          if-Moved (is_starting (w.svc s).service_state)
            (if (give_up_start d s w).0 then set_stopping d b s w1 else w1) w
            (λ k.
              if-Moved (give_up_start d s w).0 (set_stopping d b s w1) w1
                (λ up.
                  let f = give_up_start-Frozen d c s w up in
                  set_stopping-Moved b s e (ground (arith, f.same_state s)) (Frozen-Moved f h))
                (λ _. Halted-Moved s e (ground arith) h (give_up_start-Halted d c s w)))
            (λ _. h))

  do_stop_with-Moved :
      (stop : ℕ → World → World)
      → ((t : ℕ) (u : World) → Moved w0 u → Moved w0 (stop t u))
      → (b : Bool) (s : ℕ) {w : World} → Moved w0 w
      → Moved w0 (do_stop_with d stop b s w)
  unfolding do_stop_with
  do_stop_with-Moved stop keep b s {w} h = elim (Bool-cases (is_start_pinned (w.svc s))) [
    | inl e ↦ rw (e, do_stop_with) h
    | inr e ↦
        rw (e, do_stop_with)
          (finish_stop-Moved _ s (sym (h.pins s) ∙ e) (
            search
              (
                if-Moved, modify-Moved, decide_restart-Moved, release_explicit-Moved,
                stop_dependents-Moved,
              )
              depth 12))
  ]

  do_stop_fuel-Moved :
      (n : ℕ) (b : Bool) (s : ℕ) (w : World) → Moved w0 w → Moved w0 (do_stop_fuel d n b s w)
  unfolding do_stop_fuel
  do_stop_fuel-Moved zero b s w h = run_out_of_fuel-Moved h
  do_stop_fuel-Moved (suc n) b s w h =
      do_stop_with-Moved (do_stop_fuel d n false) (do_stop_fuel-Moved n false) b s h

  do_stop-Moved : (b : Bool) (s : ℕ) (w : World) → Moved w0 w → Moved w0 (do_stop d b s w)
  unfolding do_stop
  do_stop-Moved b s w h = do_stop_fuel-Moved _ b s w h

-- If `interrupt_start` moves at most its own service, to STOPPING, and `check_restart` none,
-- `release` leaves every pin, and moves services only from STARTING or STARTED to STOPPING,
-- and none that is pinned started.
pub release-Moved : (d : Dispatch) → IsStill d → (s : ℕ) (w : World) → Moved w (release d s w)
unfolding release
release-Moved d c s w =
    release_stopping-Moved (do_stop d false) s (do_stop-Moved d c false) (Moved-refl w)

-- If `interrupt_start` moves at most its own service, to STOPPING, and `check_restart` none,
-- `do_stop` leaves every pin, and moves services only from STARTING or STARTED to STOPPING,
-- and none that is pinned started.
pub do_stop_moves :
    (d : Dispatch) → IsStill d → (b : Bool) (s : ℕ) (w : World) → Moved w (do_stop d b s w)
do_stop_moves d c b s w = do_stop-Moved d c b s w (Moved-refl w)
