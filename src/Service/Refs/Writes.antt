-- ===== src/Service/Refs/Writes.antt =====
-- What each write of cdinit/dinit/src/service.cc does to the accounting of references.
use cdinit.Base.{
  ℕ, ◌==◌, Bool, true, false, ◌≡◌, List, [], ◌∷◌, contains, arith, ◌≢◌, ap, Bool-cases, inl, inr,
}
use cdinit.Service.Types.{Service, Graph, World, Output, increment, decrement}
use cdinit.Service.State.{
  modify, set_waiting_on, set_holding_acq, emit, add_prop_queue, add_transition_queue,
  run_out_of_fuel, unqueue_console, append_console_queue, service_active, service_inactive, each,
  each_all,
}
use cdinit.Service.Refs.Defs.{
  Owes, IsGraph, held-release, held-acquire, held-update_absent, held-update_same,
}

module _ {g : Graph} {p : List ℕ} {w : World} where
  pub modify-Owes :
      (s : ℕ) (f : Service → Service)
      → ((x : Service) → (f x).required_by ≡ x.required_by)
      → ((x : Service) → (f x).start_explicit ≡ x.start_explicit)
      → Owes g p w
      → Owes g p (modify s f w)
  unfolding modify
  modify-Owes s f r e h = record {
    same_graph = h.same_graph;
    counted = λ t. ground (arith, h.counted t, r (w.svc t), e (w.svc t));
  }

  pub set_waiting_on-Owes : (l : ℕ) (b : Bool) → Owes g p w → Owes g p (set_waiting_on l b w)
  unfolding set_waiting_on
  set_waiting_on-Owes l b h = record { same_graph = h.same_graph; counted = h.counted }

  pub emit-Owes : (o : Output) → Owes g p w → Owes g p (emit o w)
  unfolding emit
  emit-Owes o h = record { same_graph = h.same_graph; counted = h.counted }

  pub add_prop_queue-Owes : (s : ℕ) → Owes g p w → Owes g p (add_prop_queue s w)
  unfolding add_prop_queue
  add_prop_queue-Owes s h = record { same_graph = h.same_graph; counted = h.counted }

  pub add_transition_queue-Owes : (s : ℕ) → Owes g p w → Owes g p (add_transition_queue s w)
  unfolding add_transition_queue
  add_transition_queue-Owes s h = record { same_graph = h.same_graph; counted = h.counted }

  pub run_out_of_fuel-Owes : Owes g p w → Owes g p (run_out_of_fuel w)
  unfolding run_out_of_fuel
  run_out_of_fuel-Owes h = record { same_graph = h.same_graph; counted = h.counted }

  pub unqueue_console-Owes : (s : ℕ) → Owes g p w → Owes g p (unqueue_console s w)
  unfolding unqueue_console
  unqueue_console-Owes s h = record { same_graph = h.same_graph; counted = h.counted }

  pub append_console_queue-Owes : (s : ℕ) → Owes g p w → Owes g p (append_console_queue s w)
  unfolding append_console_queue
  append_console_queue-Owes s h = record {
    same_graph = ground (arith, h.same_graph);
    counted = λ t. ground (arith, h.counted t);
  }

  pub service_active-Owes : Owes g p w → Owes g p (service_active w)
  unfolding service_active
  service_active-Owes h = record { same_graph = h.same_graph; counted = h.counted }

  pub service_inactive-Owes : Owes g p w → Owes g p (service_inactive w)
  unfolding service_inactive
  service_inactive-Owes h = record { same_graph = h.same_graph; counted = h.counted }

  -- The decrement of `release` settles one reference that is owed.
  pub decrement-Owes :
      (s : ℕ)
      → Owes g (s ∷ p) w
      → Owes g p (modify s (λ x. record x { required_by = decrement x.required_by }) w)
  unfolding modify
  decrement-Owes s h = record {
    same_graph = h.same_graph;
    counted = λ t. ground (arith, h.counted t);
  }

  pub increment-Owes :
      (s : ℕ)
      → Owes g p w
      → Owes g (s ∷ p) (modify s (λ x. record x { required_by = increment x.required_by }) w)
  unfolding modify
  increment-Owes s h = record {
    same_graph = h.same_graph;
    counted = λ t. ground (arith, h.counted t);
  }

  pub clear_explicit-Owes :
      (s : ℕ)
      → (w.svc s).start_explicit ≡ true
      → Owes g p w
      → Owes g (s ∷ p) (modify s (λ x. record x { start_explicit = false }) w)
  unfolding modify
  clear_explicit-Owes s e h = record {
    same_graph = h.same_graph;
    counted = λ t. ground (arith, h.counted t);
  }

module _ {g : Graph} {p : List ℕ} {w : World} where
  pub set_explicit-Owes :
      (s : ℕ)
      → (w.svc s).start_explicit ≡ false
      → Owes g p w
      → Owes g p (
          modify s
            (λ x. record x { required_by = increment x.required_by; start_explicit = true })
            w)
  unfolding modify
  set_explicit-Owes s e h = record {
    same_graph = h.same_graph;
    counted = λ t. ground (arith, h.counted t);
  }

module _ {g : Graph} {p : List ℕ} {w : World} where
  pub drop_explicit-Owes :
      (s : ℕ)
      → (w.svc s).start_explicit ≡ true
      → Owes g p w
      → Owes g p (
          modify s
            (λ x. record x { required_by = decrement x.required_by; start_explicit = false })
            w)
  unfolding modify
  drop_explicit-Owes s e h = record {
    same_graph = h.same_graph;
    counted = λ t. ground (arith, h.counted t);
  }

pub absent_elsewhere :
    (g : Graph) (v : IsGraph g) (l t : ℕ) → (g.link l).to ≢ t → contains (g.dependents t) l ≡ false
absent_elsewhere g v l t ne = elim (Bool-cases (contains (g.dependents t) l)) [
  | inl e ↦ absurd (ne (v.own t l e))
  | inr e ↦ e
]

module _ {g : Graph} (v : IsGraph g) {p : List ℕ} {w : World} where
  pub hold_again-Owes :
      (l : ℕ) → w.holding_acq l ≡ true → Owes g p w → Owes g p (set_holding_acq l true w)
  unfolding set_holding_acq
  hold_again-Owes l e h = record {
    same_graph = h.same_graph;
    counted = λ t. ground (arith, h.counted t, held-update_same w.holding_acq l (g.dependents t));
  }

  -- A link that lets go owes its target a release.
  pub let_go-Owes :
      (s l : ℕ)
      → contains (g.dependents s) l ≡ true
      → w.holding_acq l ≡ true
      → Owes g p w
      → Owes g (s ∷ p) (set_holding_acq l false w)
  unfolding set_holding_acq
  let_go-Owes s l m e h = record {
    same_graph = h.same_graph;
    counted = λ t. elim (Bool-cases (t == s)) [
      | inl q ↦ ground (arith, h.counted t, held-release w.holding_acq l (g.dependents t), v.once t)
      | inr q ↦ ground (
        arith,
        h.counted t,
        v.own s l m,
        absent_elsewhere g v l t,
        held-update_absent w.holding_acq l false (g.dependents t),
      )
    ];
  }

  -- A link that takes hold accounts for a reference that was taken.
  pub take_hold-Owes :
      (s l : ℕ)
      → contains (g.dependents s) l ≡ true
      → w.holding_acq l ≡ false
      → Owes g (s ∷ p) w
      → Owes g p (set_holding_acq l true w)
  unfolding set_holding_acq
  take_hold-Owes s l m e h = record {
    same_graph = h.same_graph;
    counted = λ t. elim (Bool-cases (t == s)) [
      | inl q ↦ ground (arith, h.counted t, held-acquire w.holding_acq l (g.dependents t), v.once t)
      | inr q ↦ ground (
        arith,
        h.counted t,
        v.own s l m,
        absent_elsewhere g v l t,
        held-update_absent w.holding_acq l true (g.dependents t),
      )
    ];
  }

module _ (P : World → Type 0) where
  pub each-keeps :
      (f : ℕ → World → World) (ls : List ℕ) (w : World)
      → ((l : ℕ) (u : World) → contains ls l ≡ true → P u → P (f l u))
      → P w
      → P (each f ls w)
  unfolding each
  each-keeps f [] w keep h = h
  each-keeps f (l ∷ ls) w keep h =
      each-keeps f ls (f l w) (λ k u m. keep k u (ground (arith, m))) (keep l w (ground arith) h)

  pub each_all-keeps :
      (f : ℕ → World → Bool × World) (ls : List ℕ) (w : World)
      → ((l : ℕ) (u : World) → contains ls l ≡ true → P u → P (f l u).1)
      → P w
      → P (each_all f ls w).1
  unfolding each_all
  each_all-keeps f [] w keep h = h
  each_all-keeps f (l ∷ ls) w keep h =
      each_all-keeps f ls (f l w).1 (λ k u m. keep k u (ground (arith, m)))
        (keep l w (ground arith) h)

module _ {g : Graph} {p : List ℕ} (f : ℕ → World → World) (s : ℕ) {w : World} where
  pub each_dependent-Owes :
      ((l : ℕ) (u : World) → contains (g.dependents s) l ≡ true → Owes g p u → Owes g p (f l u))
      → Owes g p w
      → Owes g p (each f (w.graph.dependents s) w)
  each_dependent-Owes keep h =
      rw (ap (λ k. k.dependents s) h.same_graph) (each-keeps (Owes g p) f (g.dependents s) w keep h)

  pub each_dependency-Owes :
      ((l : ℕ) (u : World) → contains (g.depends_on s) l ≡ true → Owes g p u → Owes g p (f l u))
      → Owes g p w
      → Owes g p (each f (w.graph.depends_on s) w)
  each_dependency-Owes keep h =
      rw (ap (λ k. k.depends_on s) h.same_graph) (each-keeps (Owes g p) f (g.depends_on s) w keep h)
