-- ===== src/Service/Moves/Stopping.antt =====
-- `release`, `do_stop` and `stop_dependents` of cdinit/dinit/src/service.cc as moves of states.
use cdinit.Base.{ℕ, Bool, Bool-cases, inl, inr}
use cdinit.Service.Types.{World}
use cdinit.Service.State.{is_hard}
use cdinit.Service.Stop.{
  release_inactive, release_then, release_quietly, release_stopping, release_explicit, forced_stop,
  unrecoverable_stop, dependency_started, stop_waiting, release_link, force_dependent,
  stop_dependent, restart_dependent, stop_hard, break_soft, stop_link, stop_dependents,
}
use cdinit.Service.Refs.Writes.{each_all-keeps}
use cdinit.Service.Moves.Defs.{Moved, moved_writes, if-Moved, modify-Moved}

module _ {w0 : World} where
  release_inactive-Moved :
      (stop : World → World) (s : ℕ) {w : World}
      → ((u : World) → Moved w0 u → Moved w0 (stop u))
      → Moved w0 w
      → Moved w0 (release_inactive stop s w)
  unfolding release_inactive
  release_inactive-Moved stop s keep h = search moved_writes depth 9

  release_then-Moved :
      (stop : World → World) (s : ℕ) {w : World}
      → ((u : World) → Moved w0 u → Moved w0 (stop u))
      → Moved w0 w
      → Moved w0 (release_then stop s w)
  unfolding release_then
  release_then-Moved stop s keep h = search (moved_writes, release_inactive-Moved) depth 12

  release_quietly-Moved : (s : ℕ) {w : World} → Moved w0 w → Moved w0 (release_quietly s w)
  unfolding release_quietly
  release_quietly-Moved s h = release_then-Moved (λ w. w) s (λ u k. k) h

  pub release_stopping-Moved :
      (stop : ℕ → World → World) (s : ℕ) {w : World}
      → ((t : ℕ) (u : World) → Moved w0 u → Moved w0 (stop t u))
      → Moved w0 w
      → Moved w0 (release_stopping stop s w)
  unfolding release_stopping
  release_stopping-Moved stop s keep h =
      release_then-Moved _ s (λ u k. search (moved_writes, keep) depth 9) h

  pub release_explicit-Moved : (s : ℕ) {w : World} → Moved w0 w → Moved w0 (release_explicit s w)
  unfolding release_explicit
  release_explicit-Moved s h = search (if-Moved, release_quietly-Moved, modify-Moved) depth 9

  forced_stop-Moved : (s : ℕ) {w : World} → Moved w0 w → Moved w0 (forced_stop s w)
  unfolding forced_stop
  forced_stop-Moved s h = search moved_writes depth 9

  unrecoverable_stop-Moved : (s : ℕ) {w : World} → Moved w0 w → Moved w0 (unrecoverable_stop s w)
  unfolding unrecoverable_stop
  unrecoverable_stop-Moved s h = search (forced_stop-Moved, modify-Moved) depth 9

  dependency_started-Moved : (s : ℕ) {w : World} → Moved w0 w → Moved w0 (dependency_started s w)
  unfolding dependency_started
  dependency_started-Moved s h = search moved_writes depth 9

  stop_waiting-Moved : (l : ℕ) {w : World} → Moved w0 w → Moved w0 (stop_waiting l w)
  unfolding stop_waiting
  stop_waiting-Moved l h = search (moved_writes, dependency_started-Moved) depth 9

  force_dependent-Moved : (s t : ℕ) {w : World} → Moved w0 w → Moved w0 (force_dependent s t w)
  unfolding force_dependent
  force_dependent-Moved s t h =
      search (moved_writes, forced_stop-Moved, unrecoverable_stop-Moved) depth 9

  restart_dependent-Moved : (t : ℕ) {w : World} → Moved w0 w → Moved w0 (restart_dependent t w)
  unfolding restart_dependent
  restart_dependent-Moved t h = search moved_writes depth 9

  break_soft-Moved : (s l : ℕ) {w : World} → Moved w0 w → Moved w0 (break_soft s l w)
  unfolding break_soft release_link
  break_soft-Moved s l h = search (moved_writes, release_quietly-Moved, stop_waiting-Moved) depth 9

  module _ (stop : ℕ → World → World)
      (keep : (t : ℕ) (u : World) → Moved w0 u → Moved w0 (stop t u)) where
    stop_dependent-Moved : (t : ℕ) {w : World} → Moved w0 w → Moved w0 (stop_dependent stop t w)
    unfolding stop_dependent
    stop_dependent-Moved t h = search (moved_writes, release_stopping-Moved) depth 12

    stop_hard-Moved :
        (restart_deps : Bool) (s l : ℕ) {w : World}
        → Moved w0 w
        → Moved w0 (stop_hard stop restart_deps s l w).1
    unfolding stop_hard
    stop_hard-Moved restart_deps s l h =
        search (if-Moved, force_dependent-Moved, stop_dependent-Moved, restart_dependent-Moved)
          depth 12

    stop_link-Moved :
        (for_restart restart_deps : Bool) (s l : ℕ) {w : World}
        → Moved w0 w
        → Moved w0 (stop_link stop for_restart restart_deps s l w).1
    unfolding stop_link
    stop_link-Moved for_restart restart_deps s l {w} h = elim (Bool-cases (is_hard l w)) [
      | inl e ↦ rw (e, stop_link) (stop_hard-Moved restart_deps s l h)
      | inr e ↦
          rw (e, stop_link)
            (if-Moved for_restart w (break_soft s l w) (λ _. h) (λ _. break_soft-Moved s l h))
    ]

    pub stop_dependents-Moved :
        (for_restart restart_deps : Bool) (s : ℕ) {w : World}
        → Moved w0 w
        → Moved w0 (stop_dependents stop for_restart restart_deps s w).1
    unfolding stop_dependents
    stop_dependents-Moved for_restart restart_deps s {w} h =
        each_all-keeps (Moved w0) _ (w.graph.dependents s) w
          (λ l u _ k. stop_link-Moved for_restart restart_deps s l k) h
