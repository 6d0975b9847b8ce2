-- ===== src/Service/Refs/Stopping.antt =====
-- The accounting of references through `release`, `stop_dependents` and `do_stop` of
-- cdinit/dinit/src/service.cc.
use cdinit.Base.{
  ℕ, if◌then◌else◌, Bool, true, false, ◌≡◌, refl, ap, List, ◌∷◌, contains, Bool-cases, inl, inr,
}
use cdinit.Service.Types.{Graph, World}
use cdinit.Service.State.{is_hard}
use cdinit.Service.Stop.{
  release_inactive, release_then, release_quietly, release_stopping, release_explicit, forced_stop,
  unrecoverable_stop, dependency_started, stop_waiting, release_link, force_dependent,
  stop_dependent, restart_dependent, stop_hard, break_soft, stop_link, stop_dependents,
}
use cdinit.Service.Refs.Defs.{Owes, IsGraph}
use cdinit.Service.Refs.Writes.{
  modify-Owes, set_waiting_on-Owes, emit-Owes, add_prop_queue-Owes, add_transition_queue-Owes,
  decrement-Owes, unqueue_console-Owes, clear_explicit-Owes, let_go-Owes, each_all-keeps,
}

module _ {g : Graph} {p : List ℕ} where
  pub if-Owes :
      (b : Bool) (x y : World)
      → (b ≡ true → Owes g p x)
      → (b ≡ false → Owes g p y)
      → Owes g p (if b then x else y)
  if-Owes true x y h k = h refl
  if-Owes false x y h k = k refl

  pub if-pair-Owes :
      (b : Bool) (x y : Bool × World)
      → (b ≡ true → Owes g p x.1)
      → (b ≡ false → Owes g p y.1)
      → Owes g p (if b then x else y).1
  if-pair-Owes true x y h k = h refl
  if-pair-Owes false x y h k = k refl

pub ruleset writes = (
  if-Owes, modify-Owes, set_waiting_on-Owes, emit-Owes, add_prop_queue-Owes,
  add_transition_queue-Owes, unqueue_console-Owes,
)

module _ {g : Graph} {p : List ℕ} where
  release_inactive-Owes :
      (stop : World → World) (s : ℕ) {w : World}
      → ((u : World) → Owes g p u → Owes g p (stop u))
      → Owes g p w
      → Owes g p (release_inactive stop s w)
  unfolding release_inactive
  release_inactive-Owes stop s keep h = search writes depth 9

  pub release_then-Owes :
      (stop : World → World) (s : ℕ) {w : World}
      → ((u : World) → Owes g p u → Owes g p (stop u))
      → Owes g (s ∷ p) w
      → Owes g p (release_then stop s w)
  unfolding release_then
  release_then-Owes stop s {w} keep h =
      search (writes, release_inactive-Owes, decrement-Owes) depth 12

  pub release_quietly-Owes : (s : ℕ) {w : World} → Owes g (s ∷ p) w → Owes g p (release_quietly s w)
  unfolding release_quietly
  release_quietly-Owes s h = release_then-Owes (λ w. w) s (λ u k. k) h

  pub release_stopping-Owes :
      (stop : ℕ → World → World) (s : ℕ) {w : World}
      → ((t : ℕ) (u : World) → Owes g p u → Owes g p (stop t u))
      → Owes g (s ∷ p) w
      → Owes g p (release_stopping stop s w)
  unfolding release_stopping
  release_stopping-Owes stop s keep h =
      release_then-Owes _ s (λ u k. search (writes, keep) depth 9) h

  pub release_explicit-Owes : (s : ℕ) {w : World} → Owes g p w → Owes g p (release_explicit s w)
  unfolding release_explicit
  release_explicit-Owes s h = search (if-Owes, release_quietly-Owes, clear_explicit-Owes) depth 9

  pub forced_stop-Owes : (s : ℕ) {w : World} → Owes g p w → Owes g p (forced_stop s w)
  unfolding forced_stop
  forced_stop-Owes s h = search writes depth 9

  pub unrecoverable_stop-Owes : (s : ℕ) {w : World} → Owes g p w → Owes g p (unrecoverable_stop s w)
  unfolding unrecoverable_stop
  unrecoverable_stop-Owes s h = search (forced_stop-Owes, modify-Owes) depth 9

  pub dependency_started-Owes : (s : ℕ) {w : World} → Owes g p w → Owes g p (dependency_started s w)
  unfolding dependency_started
  dependency_started-Owes s h = search writes depth 9

  pub stop_waiting-Owes : (l : ℕ) {w : World} → Owes g p w → Owes g p (stop_waiting l w)
  unfolding stop_waiting
  stop_waiting-Owes l h = search (writes, dependency_started-Owes) depth 9

  force_dependent-Owes : (s t : ℕ) {w : World} → Owes g p w → Owes g p (force_dependent s t w)
  unfolding force_dependent
  force_dependent-Owes s t h = search (writes, forced_stop-Owes, unrecoverable_stop-Owes) depth 9

  restart_dependent-Owes : (t : ℕ) {w : World} → Owes g p w → Owes g p (restart_dependent t w)
  unfolding restart_dependent
  restart_dependent-Owes t h = search writes depth 9

  stop_dependent-Owes :
      (stop : ℕ → World → World) (t : ℕ) {w : World}
      → ((u : ℕ) (x : World) → Owes g p x → Owes g p (stop u x))
      → Owes g p w
      → Owes g p (stop_dependent stop t w)
  unfolding stop_dependent
  stop_dependent-Owes stop t keep h =
      search (writes, release_stopping-Owes, clear_explicit-Owes) depth 12

  stop_hard-Owes :
      (stop : ℕ → World → World) (restart_deps : Bool) (s l : ℕ) {w : World}
      → ((u : ℕ) (x : World) → Owes g p x → Owes g p (stop u x))
      → Owes g p w
      → Owes g p (stop_hard stop restart_deps s l w).1
  unfolding stop_hard
  stop_hard-Owes stop restart_deps s l keep h =
      search (if-Owes, force_dependent-Owes, stop_dependent-Owes, restart_dependent-Owes) depth 12

module _ {g : Graph} (v : IsGraph g) {p : List ℕ} where
  pub release_link-Owes :
      (s l : ℕ) {w : World}
      → contains (g.dependents s) l ≡ true
      → Owes g p w
      → Owes g p (release_link s l w)
  unfolding release_link
  release_link-Owes s l m h = search (if-Owes, release_quietly-Owes, let_go-Owes v) depth 9

  pub break_soft-Owes :
      (s l : ℕ) {w : World}
      → contains (g.dependents s) l ≡ true
      → Owes g p w
      → Owes g p (break_soft s l w)
  unfolding break_soft
  break_soft-Owes s l m h = release_link-Owes s l m (stop_waiting-Owes l h)

  stop_link-Owes :
      (stop : ℕ → World → World) (for_restart restart_deps : Bool) (s l : ℕ) {w : World}
      → ((u : ℕ) (x : World) → Owes g p x → Owes g p (stop u x))
      → contains (g.dependents s) l ≡ true
      → Owes g p w
      → Owes g p (stop_link stop for_restart restart_deps s l w).1
  unfolding stop_link
  stop_link-Owes stop for_restart restart_deps s l {w} keep m h = elim (Bool-cases (is_hard l w)) [
    | inl e ↦ rw (e, stop_link) (stop_hard-Owes stop restart_deps s l keep h)
    | inr e ↦ rw (e, stop_link) (if-Owes for_restart _ _ (λ _. h) (λ _. break_soft-Owes s l m h))
  ]

  pub stop_dependents-Owes :
      (stop : ℕ → World → World) (for_restart restart_deps : Bool) (s : ℕ) {w : World}
      → ((u : ℕ) (x : World) → Owes g p x → Owes g p (stop u x))
      → Owes g p w
      → Owes g p (stop_dependents stop for_restart restart_deps s w).1
  unfolding stop_dependents
  stop_dependents-Owes stop for_restart restart_deps s {w} keep h =
      rw (ap (λ k. k.dependents s) h.same_graph) (
        each_all-keeps (Owes g p) _ (g.dependents s) w
          (λ l u m k. stop_link-Owes stop for_restart restart_deps s l keep m k) h)
