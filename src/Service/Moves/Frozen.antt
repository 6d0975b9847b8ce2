-- ===== src/Service/Moves/Frozen.antt =====
-- `do_stop` of cdinit/dinit/src/service.cc giving up a start: what changes of states and pins.
use cdinit.Base.{
  ℕ, if◌then◌else◌, Bool, true, false, ◌≡◌, refl, arith, ap, ◌∙◌, not, ◌&&◌, sym, ◌⊎◌, inl, inr,
}
use cdinit.Service.Types.{ServiceState, Service, World, Output}
use cdinit.Service.State.{Dispatch, is_start_pinned, modify, emit, unqueue_console}
use cdinit.Service.DoStop.{give_up_start}
use cdinit.Service.Moves.Defs.{Frozen, Moved, is_running}

pub record Halted (s : ℕ) (w u : World) : Type 0 where
  pub keeps_pins : (t : ℕ) → is_start_pinned (u.svc t) ≡ is_start_pinned (w.svc t)
  pub halts :
      (t : ℕ)
      → ((u.svc t).service_state ≡ (w.svc t).service_state)
        ⊎ ((t ≡ s) × ((u.svc t).service_state ≡ ServiceState.stopping))

pub Halted-Moved :
    (s : ℕ) {w0 w u : World}
    → is_start_pinned (w0.svc s) ≡ false
    → is_running (w.svc s).service_state ≡ true
    → Moved w0 w
    → Halted s w u
    → Moved w0 u
Halted-Moved s {w0} {w} {u} e k h i = record {
  pins = λ t. i.keeps_pins t ∙ h.pins t;
  moves = λ t. elim (i.halts t) [
    | inl same ↦ ground (arith, h.moves t, same)
    | inr (at, gone) ↦
        rw at (ground (arith, e, k, h.moves s, sym (ap (λ i. (u.svc i).service_state) at) ∙ gone))
  ];
}

Frozen-Halted : (s : ℕ) {w u : World} → Frozen w u → Halted s w u
Frozen-Halted s f = record { keeps_pins = f.same_pins; halts = λ t. inl (f.same_state t) }

-- The virtual functions that `do_stop` calls: `check_restart` changes no state and no pin, and
-- `interrupt_start` none when the start is over, else at most the service's own state, to STOPPING.
pub record IsStill (d : Dispatch) : Type 0 where
  pub interrupt_start_halts : (s : ℕ) (w : World) → Halted s w (d.interrupt_start s w).1
  pub interrupt_start_still :
      (s : ℕ) (w : World) → (d.interrupt_start s w).0 ≡ true → Frozen w (d.interrupt_start s w).1
  pub check_restart_still : (s : ℕ) (w : World) → Frozen w (d.check_restart s w).1

module _ {w0 : World} where
  modify-Frozen :
      (s : ℕ) (f : Service → Service) {w : World}
      → ((x : Service) → is_start_pinned (f x) ≡ is_start_pinned x)
      → ((x : Service) → (f x).service_state ≡ x.service_state)
      → Frozen w0 w
      → Frozen w0 (modify s f w)
  unfolding modify
  modify-Frozen s f {w} e k h = record {
    same_pins = λ t. ground (arith, h.same_pins t, e (w.svc t));
    same_state = λ t. ground (arith, h.same_state t, k (w.svc t));
  }

  emit-Frozen : (o : Output) {w : World} → Frozen w0 w → Frozen w0 (emit o w)
  unfolding emit
  emit-Frozen o h = record { same_pins = h.same_pins; same_state = h.same_state }

  unqueue_console-Frozen : (s : ℕ) {w : World} → Frozen w0 w → Frozen w0 (unqueue_console s w)
  unfolding unqueue_console
  unqueue_console-Frozen s h = record { same_pins = h.same_pins; same_state = h.same_state }

  if-Frozen : (b : Bool) (x y : World) → Frozen w0 x → Frozen w0 y → Frozen w0 (if b then x else y)
  if-Frozen true x y h k = h
  if-Frozen false x y h k = k

Frozen-refl : (w : World) → Frozen w w
Frozen-refl w = record { same_pins = λ s. refl; same_state = λ s. refl }

if-given_up :
    (b : Bool) (w : World) (x y : Bool × World)
    → (x.0 ≡ true → Frozen w x.1)
    → (y.0 ≡ true → Frozen w y.1)
    → (if b then x else y).0 ≡ true
    → Frozen w (if b then x else y).1
if-given_up true w x y h k = h
if-given_up false w x y h k = k

if-Halted :
    (b : Bool) (s : ℕ) (w : World) (x y : Bool × World)
    → Halted s w x.1
    → Halted s w y.1
    → Halted s w (if b then x else y).1
if-Halted true s w x y h k = h
if-Halted false s w x y h k = k

emit-Halted : (s : ℕ) (o : Output) {w u : World} → Halted s w u → Halted s w (emit o u)
unfolding emit
emit-Halted s o h = record { keeps_pins = h.keeps_pins; halts = h.halts }

module _ (d : Dispatch) (c : IsStill d) (s : ℕ) (w : World) where
  left_queue-Frozen :
      (o : Output)
      → Frozen w (
          emit o (
            if (w.svc s).waiting_for_console
            then modify s (λ y. record y { waiting_for_console = false }) (unqueue_console s w)
            else w))
  left_queue-Frozen o =
      search (if-Frozen, modify-Frozen, emit-Frozen, unqueue_console-Frozen, Frozen-refl) depth 9

  pub give_up_start-Frozen : (give_up_start d s w).0 ≡ true → Frozen w (give_up_start d s w).1
  unfolding give_up_start
  give_up_start-Frozen =
      let x = w.svc s in
      if-given_up (not x.waiting_for_deps && not x.waiting_for_console) w _ _
        (if-given_up (d.can_interrupt_start s w) w _ _
          (λ e. emit-Frozen _ (c.interrupt_start_still s w e)) (λ e. Frozen-refl w))
        (λ e. left_queue-Frozen _)

  pub give_up_start-Halted : Halted s w (give_up_start d s w).1
  unfolding give_up_start
  give_up_start-Halted =
      let x = w.svc s in
      if-Halted (not x.waiting_for_deps && not x.waiting_for_console) s w _ _
        (if-Halted (d.can_interrupt_start s w) s w _ _
          (emit-Halted s _ (c.interrupt_start_halts s w)) (Frozen-Halted s (Frozen-refl w)))
        (Frozen-Halted s (left_queue-Frozen _))
