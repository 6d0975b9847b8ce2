-- ===== src/Service/Fuel/Defs.antt =====
-- Worlds that have not run out of fuel and have few explicitly started services, and the writes of
-- cdinit/dinit/src/service.cc on them.
use cdinit.Base.{
  ℕ, suc, ◌≤◌, if◌then◌else◌, Bool, true, false, ◌≡◌, List, [], ◌∷◌, contains, arith, refl, update,
}
use cdinit.Service.Types.{Service, Graph, World, Output}
use cdinit.Service.State.{
  modify, set_waiting_on, set_holding_acq, emit, add_prop_queue, add_transition_queue,
  unqueue_console,
}
use cdinit.Service.Refs.Defs.{held, IsDistinct, held-release}

-- The services among `r` that are explicitly started.
abbrev pub active_in : List ℕ → World → ℕ
active_in r w = held (λ s. (w.svc s).start_explicit) r

pub record Calm (g : Graph) (r : List ℕ) (m : ℕ) (w : World) : Type 0 where
  pub fuelled : w.out_of_fuel ≡ false
  pub few : active_in r w ≤ m
  pub same_graph : w.graph ≡ g

pub held_mono :
    (h k : ℕ → Bool) (r : List ℕ) → ((s : ℕ) → h s ≡ true → k s ≡ true) → held h r ≤ held k r
held_mono h k [] i = omega arith
held_mono h k (s ∷ r) i = ground (arith, held_mono h k r i, i s)

pub held-congr : (h k : ℕ → Bool) (r : List ℕ) → ((s : ℕ) → h s ≡ k s) → held h r ≡ held k r
held-congr h k [] i = refl
held-congr h k (s ∷ r) i = ground (arith, held-congr h k r i, i s)

module _ {g : Graph} {r : List ℕ} {m : ℕ} {w : World} where
  -- A write that marks no service as explicitly started.
  pub modify-Calm :
      (s : ℕ) (f : Service → Service)
      → ((x : Service) → (f x).start_explicit ≡ true → x.start_explicit ≡ true)
      → Calm g r m w
      → Calm g r m (modify s f w)
  unfolding modify
  modify-Calm s f e h = record {
    fuelled = h.fuelled;
    few = omega (
      arith,
      h.few,
      held_mono (λ t. ((modify s f w).svc t).start_explicit) (λ t. (w.svc t).start_explicit) r
          (λ t. ground (arith, e (w.svc t))),
    );
    same_graph = h.same_graph;
  }

  pub set_waiting_on-Calm : (l : ℕ) (b : Bool) → Calm g r m w → Calm g r m (set_waiting_on l b w)
  unfolding set_waiting_on
  set_waiting_on-Calm l b h = record { fuelled = h.fuelled; few = h.few; same_graph = h.same_graph }

  pub set_holding_acq-Calm : (l : ℕ) (b : Bool) → Calm g r m w → Calm g r m (set_holding_acq l b w)
  unfolding set_holding_acq
  set_holding_acq-Calm l b h = record {
    fuelled = h.fuelled;
    few = h.few;
    same_graph = h.same_graph;
  }

  pub emit-Calm : (o : Output) → Calm g r m w → Calm g r m (emit o w)
  unfolding emit
  emit-Calm o h = record { fuelled = h.fuelled; few = h.few; same_graph = h.same_graph }

  pub add_prop_queue-Calm : (s : ℕ) → Calm g r m w → Calm g r m (add_prop_queue s w)
  unfolding add_prop_queue
  add_prop_queue-Calm s h = record { fuelled = h.fuelled; few = h.few; same_graph = h.same_graph }

  pub add_transition_queue-Calm : (s : ℕ) → Calm g r m w → Calm g r m (add_transition_queue s w)
  unfolding add_transition_queue
  add_transition_queue-Calm s h = record {
    fuelled = h.fuelled;
    few = h.few;
    same_graph = h.same_graph;
  }

  pub unqueue_console-Calm : (s : ℕ) → Calm g r m w → Calm g r m (unqueue_console s w)
  unfolding unqueue_console
  unqueue_console-Calm s h = record { fuelled = h.fuelled; few = h.few; same_graph = h.same_graph }

  pub Calm-suc : Calm g r m w → Calm g r (suc m) w
  Calm-suc h = record { fuelled = h.fuelled; few = omega (arith, h.few); same_graph = h.same_graph }

module _ {g : Graph} {r : List ℕ} {m : ℕ} where
  pub if-Calm :
      (b : Bool) (x y : World)
      → (b ≡ true → Calm g r m x)
      → (b ≡ false → Calm g r m y)
      → Calm g r m (if b then x else y)
  if-Calm true x y h k = h refl
  if-Calm false x y h k = k refl

  pub if-pair-Calm :
      (b : Bool) (x y : Bool × World)
      → (b ≡ true → Calm g r m x.1)
      → (b ≡ false → Calm g r m y.1)
      → Calm g r m (if b then x else y).1
  if-pair-Calm true x y h k = h refl
  if-pair-Calm false x y h k = k refl

pub ruleset calm_writes = (
  if-Calm, modify-Calm, set_waiting_on-Calm, set_holding_acq-Calm, emit-Calm, add_prop_queue-Calm,
  add_transition_queue-Calm, unqueue_console-Calm,
)

pub unmark-Calm :
    {g : Graph} {r : List ℕ} {m : ℕ} {w : World} (s : ℕ)
    → Calm g r m w
    → Calm g r m (modify s (λ x. record x { start_explicit = false }) w)
unmark-Calm s h = modify-Calm s (λ x. record x { start_explicit = false }) (λ x e. cc) h

-- Clearing a mark leaves one explicitly started service less.
pub clear-Calm :
    {g : Graph} {r : List ℕ} {m : ℕ} {w : World} (s : ℕ)
    → contains r s ≡ true
    → IsDistinct r
    → (w.svc s).start_explicit ≡ true
    → Calm g r (suc m) w
    → Calm g r m (modify s (λ x. record x { start_explicit = false }) w)
unfolding modify
clear-Calm {r = r} {w = w} s i u e h = record {
  fuelled = h.fuelled;
  few = omega (
    arith,
    h.few,
    held-release (λ t. (w.svc t).start_explicit) s r i u e,
    held-congr (λ t. ((modify s (λ x. record x { start_explicit = false }) w).svc t).start_explicit)
        (update (λ t. (w.svc t).start_explicit) s false) r (λ t. ground arith),
  );
  same_graph = h.same_graph;
}

pub none_left :
    {g : Graph} {r : List ℕ} {w : World} (s : ℕ)
    → contains r s ≡ true
    → IsDistinct r
    → (w.svc s).start_explicit ≡ true
    → Calm g r 0 w
    → ⊥
none_left {r = r} {w = w} s i u e h =
    absurd (omega (arith, h.few, held-release (λ t. (w.svc t).start_explicit) s r i u e))
