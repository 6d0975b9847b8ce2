-- ===== src/Service/Moves/Defs.antt =====
-- What a stop may do to the states and pins of services, and the writes of
-- cdinit/dinit/src/service.cc that keep to it.
use cdinit.Base.{ℕ, if◌then◌else◌, Bool, true, false, ◌||◌, ◌≡◌, ◌⊎◌, inl, refl, arith, ◌∙◌}
use cdinit.Service.Types.{Service, ServiceState, World, Output, is_starting, is_started}
use cdinit.Service.State.{
  is_start_pinned, modify, set_waiting_on, set_holding_acq, emit, add_prop_queue,
  add_transition_queue, unqueue_console, run_out_of_fuel,
}

abbrev pub is_running : ServiceState → Bool
is_running st = is_starting st || is_started st

-- From `w0` to `w` pins stay, and a service keeps its state, or goes from STARTING or STARTED to
-- STOPPING without being pinned.
pub record Moved (w0 w : World) : Type 0 where
  pub pins : (s : ℕ) → is_start_pinned (w.svc s) ≡ is_start_pinned (w0.svc s)
  pub moves :
      (s : ℕ)
      → ((w.svc s).service_state ≡ (w0.svc s).service_state)
        ⊎ ((is_start_pinned (w0.svc s) ≡ false)
            × (is_running (w0.svc s).service_state ≡ true)
            × ((w.svc s).service_state ≡ ServiceState.stopping))

pub Moved-refl : (w : World) → Moved w w
Moved-refl w = record { pins = λ s. refl; moves = λ s. inl refl }

-- States and pins as they were.
pub record Frozen (w0 w : World) : Type 0 where
  pub same_pins : (s : ℕ) → is_start_pinned (w.svc s) ≡ is_start_pinned (w0.svc s)
  pub same_state : (s : ℕ) → (w.svc s).service_state ≡ (w0.svc s).service_state

module _ {w0 w : World} where
  pub Frozen-Moved : {u : World} → Frozen w u → Moved w0 w → Moved w0 u
  Frozen-Moved f h = record {
    pins = λ s. f.same_pins s ∙ h.pins s;
    moves = λ s. ground (arith, f.same_state s, h.moves s);
  }

  pub modify-Moved :
      (s : ℕ) (f : Service → Service)
      → ((x : Service) → is_start_pinned (f x) ≡ is_start_pinned x)
      → ((x : Service) → (f x).service_state ≡ x.service_state)
      → Moved w0 w
      → Moved w0 (modify s f w)
  unfolding modify
  modify-Moved s f e k h = record {
    pins = λ t. ground (arith, h.pins t, e (w.svc t));
    moves = λ t. ground (arith, h.moves t, k (w.svc t));
  }

  -- The move itself.
  pub to_stopping-Moved :
      (s : ℕ) (b : Bool)
      → is_start_pinned (w0.svc s) ≡ false
      → is_running (w.svc s).service_state ≡ true
      → Moved w0 w
      → Moved w0 (
          modify s
            (λ x. record x { service_state = ServiceState.stopping; waiting_for_deps = b })
            w)
  unfolding modify
  to_stopping-Moved s b e k h = record {
    pins = λ t. ground (arith, h.pins t);
    moves = λ t. ground (arith, h.moves t);
  }

  pub set_waiting_on-Moved : (l : ℕ) (b : Bool) → Moved w0 w → Moved w0 (set_waiting_on l b w)
  unfolding set_waiting_on
  set_waiting_on-Moved l b h = record { pins = h.pins; moves = h.moves }

  pub set_holding_acq-Moved : (l : ℕ) (b : Bool) → Moved w0 w → Moved w0 (set_holding_acq l b w)
  unfolding set_holding_acq
  set_holding_acq-Moved l b h = record { pins = h.pins; moves = h.moves }

  pub emit-Moved : (o : Output) → Moved w0 w → Moved w0 (emit o w)
  unfolding emit
  emit-Moved o h = record { pins = h.pins; moves = h.moves }

  pub add_prop_queue-Moved : (s : ℕ) → Moved w0 w → Moved w0 (add_prop_queue s w)
  unfolding add_prop_queue
  add_prop_queue-Moved s h = record { pins = h.pins; moves = h.moves }

  pub add_transition_queue-Moved : (s : ℕ) → Moved w0 w → Moved w0 (add_transition_queue s w)
  unfolding add_transition_queue
  add_transition_queue-Moved s h = record { pins = h.pins; moves = h.moves }

  pub unqueue_console-Moved : (s : ℕ) → Moved w0 w → Moved w0 (unqueue_console s w)
  unfolding unqueue_console
  unqueue_console-Moved s h = record { pins = h.pins; moves = h.moves }

  pub run_out_of_fuel-Moved : Moved w0 w → Moved w0 (run_out_of_fuel w)
  unfolding run_out_of_fuel
  run_out_of_fuel-Moved h = record { pins = h.pins; moves = h.moves }

module _ {w0 : World} where
  pub if-Moved :
      (b : Bool) (x y : World)
      → (b ≡ true → Moved w0 x)
      → (b ≡ false → Moved w0 y)
      → Moved w0 (if b then x else y)
  if-Moved true x y h k = h refl
  if-Moved false x y h k = k refl

  pub if-pair-Moved :
      (b : Bool) (x y : Bool × World)
      → (b ≡ true → Moved w0 x.1)
      → (b ≡ false → Moved w0 y.1)
      → Moved w0 (if b then x else y).1
  if-pair-Moved true x y h k = h refl
  if-pair-Moved false x y h k = k refl

pub ruleset moved_writes = (
  if-Moved, modify-Moved, set_waiting_on-Moved, set_holding_acq-Moved, emit-Moved,
  add_prop_queue-Moved, add_transition_queue-Moved, unqueue_console-Moved,
)
