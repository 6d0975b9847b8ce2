-- ===== src/Service/Fuel/Dependents.antt =====
-- `stop_dependents` of cdinit/dinit/src/service.cc, when few services are explicitly started.
use cdinit.Base.{
  ℕ, zero, suc, ◌<◌, Bool, true, false, ◌≡◌, ap, List, contains, arith, Bool-cases, inl, inr,
}
use cdinit.Service.Types.{Graph, World}
use cdinit.Service.State.{modify, is_hard, from}
use cdinit.Service.Stop.{
  release_inactive, release_then, release_quietly, release_stopping, release_explicit, forced_stop,
  unrecoverable_stop, dependency_started, stop_waiting, release_link, force_dependent,
  stop_dependent, restart_dependent, stop_hard, break_soft, stop_link, stop_dependents,
}
use cdinit.Service.Refs.Defs.{IsDistinct}
use cdinit.Service.Refs.Writes.{each_all-keeps}
use cdinit.Service.Fuel.Defs.{
  Calm, calm_writes, if-Calm, modify-Calm, clear-Calm, none_left, Calm-suc, unmark-Calm,
}

module _ {g : Graph} {r : List ℕ} {m : ℕ} where
  release_inactive-Calm :
      (stop : World → World) (s : ℕ) {w : World}
      → ((u : World) → Calm g r m u → Calm g r m (stop u))
      → Calm g r m w
      → Calm g r m (release_inactive stop s w)
  unfolding release_inactive
  release_inactive-Calm stop s keep h = search calm_writes depth 9

  release_then-Calm :
      (stop : World → World) (s : ℕ) {w : World}
      → ((u : World) → Calm g r m u → Calm g r m (stop u))
      → Calm g r m w
      → Calm g r m (release_then stop s w)
  unfolding release_then
  release_then-Calm stop s keep h = search (calm_writes, release_inactive-Calm) depth 12

  release_quietly-Calm : (s : ℕ) {w : World} → Calm g r m w → Calm g r m (release_quietly s w)
  unfolding release_quietly
  release_quietly-Calm s h = release_then-Calm (λ w. w) s (λ u k. k) h

  release_stopping-Calm :
      (stop : ℕ → World → World) (s : ℕ) {w : World}
      → ((t : ℕ) (u : World) → Calm g r m u → Calm g r m (stop t u))
      → Calm g r m w
      → Calm g r m (release_stopping stop s w)
  unfolding release_stopping
  release_stopping-Calm stop s keep h =
      release_then-Calm _ s (λ u k. search (calm_writes, keep) depth 9) h

  pub release_explicit-Calm : (s : ℕ) {w : World} → Calm g r m w → Calm g r m (release_explicit s w)
  unfolding release_explicit
  release_explicit-Calm s h = search (if-Calm, release_quietly-Calm, unmark-Calm) depth 9

  forced_stop-Calm : (s : ℕ) {w : World} → Calm g r m w → Calm g r m (forced_stop s w)
  unfolding forced_stop
  forced_stop-Calm s h = search calm_writes depth 9

  unrecoverable_stop-Calm : (s : ℕ) {w : World} → Calm g r m w → Calm g r m (unrecoverable_stop s w)
  unfolding unrecoverable_stop
  unrecoverable_stop-Calm s h = search (forced_stop-Calm, modify-Calm) depth 9

  dependency_started-Calm : (s : ℕ) {w : World} → Calm g r m w → Calm g r m (dependency_started s w)
  unfolding dependency_started
  dependency_started-Calm s h = search calm_writes depth 9

  stop_waiting-Calm : (l : ℕ) {w : World} → Calm g r m w → Calm g r m (stop_waiting l w)
  unfolding stop_waiting
  stop_waiting-Calm l h = search (calm_writes, dependency_started-Calm) depth 9

  force_dependent-Calm : (s t : ℕ) {w : World} → Calm g r m w → Calm g r m (force_dependent s t w)
  unfolding force_dependent
  force_dependent-Calm s t h =
      search (calm_writes, forced_stop-Calm, unrecoverable_stop-Calm) depth 9

  restart_dependent-Calm : (t : ℕ) {w : World} → Calm g r m w → Calm g r m (restart_dependent t w)
  unfolding restart_dependent
  restart_dependent-Calm t h = search calm_writes depth 9

  break_soft-Calm : (s l : ℕ) {w : World} → Calm g r m w → Calm g r m (break_soft s l w)
  unfolding break_soft release_link
  break_soft-Calm s l h = search (calm_writes, release_quietly-Calm, stop_waiting-Calm) depth 9

-- The calls of `do_stop` that a service with `m` explicitly started ones can reach.
abbrev pub Stops : Graph → List ℕ → ℕ → (ℕ → World → World) → Type 0
Stops g r m stop = (k t : ℕ) (u : World) → k < m → Calm g r k u → Calm g r k (stop t u)

module _ {g : Graph} {r : List ℕ} (i : IsDistinct r) where
  -- An explicitly started dependent loses its mark before it is stopped.
  stop_unmarked-Calm :
      (m : ℕ) (stop : ℕ → World → World) (t : ℕ) {w : World}
      → Stops g r m stop
      → contains r t ≡ true
      → (w.svc t).start_explicit ≡ true
      → Calm g r m w
      → Calm g r m (release_stopping stop t (modify t (λ x. record x { start_explicit = false }) w))
  stop_unmarked-Calm zero stop t keep j e h = absurd (none_left t j i e h)
  stop_unmarked-Calm (suc m) stop t keep j e h =
      Calm-suc
        (release_stopping-Calm stop t (λ k u c. keep m k u (omega arith) c) (clear-Calm t j i e h))

  stop_dependent-Calm :
      (m : ℕ) (stop : ℕ → World → World) (t : ℕ) {w : World}
      → Stops g r m stop
      → contains r t ≡ true
      → Calm g r m w
      → Calm g r m (stop_dependent stop t w)
  unfolding stop_dependent
  stop_dependent-Calm m stop t keep j h = search (calm_writes, stop_unmarked-Calm) depth 12

  stop_hard-Calm :
      (m : ℕ) (stop : ℕ → World → World) (restart_deps : Bool) (s l : ℕ) {w : World}
      → Stops g r m stop
      → contains r (from l w) ≡ true
      → Calm g r m w
      → Calm g r m (stop_hard stop restart_deps s l w).1
  unfolding stop_hard
  stop_hard-Calm m stop restart_deps s l keep j h =
      search (if-Calm, force_dependent-Calm, stop_dependent-Calm, restart_dependent-Calm) depth 12

module _ {g : Graph} {r : List ℕ} (i : IsDistinct r)
    (known : (l : ℕ) → contains r (g.link l).from ≡ true) where
  stop_link-Calm :
      (m : ℕ) (stop : ℕ → World → World) (for_restart restart_deps : Bool) (s l : ℕ) {w : World}
      → Stops g r m stop
      → Calm g r m w
      → Calm g r m (stop_link stop for_restart restart_deps s l w).1
  unfolding stop_link
  stop_link-Calm m stop for_restart restart_deps s l {w} keep h = elim (Bool-cases (is_hard l w)) [
    | inl e ↦
        rw (e, stop_link)
          (stop_hard-Calm i m stop restart_deps s l keep
            (rw (ap (λ k. (k.link l).from) h.same_graph) (known l)) h)
    | inr e ↦
        rw (e, stop_link)
          (if-Calm for_restart w (break_soft s l w) (λ _. h) (λ _. break_soft-Calm s l h))
  ]

  pub stop_dependents-Calm :
      (m : ℕ) (stop : ℕ → World → World) (for_restart restart_deps : Bool) (s : ℕ) {w : World}
      → Stops g r m stop
      → Calm g r m w
      → Calm g r m (stop_dependents stop for_restart restart_deps s w).1
  unfolding stop_dependents
  stop_dependents-Calm m stop for_restart restart_deps s {w} keep h =
      each_all-keeps (Calm g r m) _ (w.graph.dependents s) w
        (λ l u _ k. stop_link-Calm m stop for_restart restart_deps s l keep k) h
