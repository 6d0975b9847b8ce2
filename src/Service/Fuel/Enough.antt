-- ===== src/Service/Fuel/Enough.antt =====
-- `do_stop` of cdinit/dinit/src/service.cc never runs out of the fuel that the model gives it.
use cdinit.Base.{
  ℕ, zero, suc, ◌≤◌, ◌<◌, Bool, true, false, ◌≡◌, refl, List, [], ◌∷◌, contains, arith, length,
}
use cdinit.Service.Types.{Graph, World}
use cdinit.Service.State.{Dispatch}
use cdinit.Service.DoStop.{
  decide_restart, set_stopping, give_up_start, finish_stop, do_stop_with, do_stop_fuel, do_stop,
}
use cdinit.Service.Refs.Defs.{IsDistinct, held}
use cdinit.Service.Fuel.Defs.{Calm, calm_writes, if-Calm, if-pair-Calm, modify-Calm}
use cdinit.Service.Fuel.Dependents.{Stops, release_explicit-Calm, stop_dependents-Calm}

-- The virtual functions that `do_stop` calls mark no service as explicitly started.
pub record IsCalm (g : Graph) (r : List ℕ) (d : Dispatch) : Type 0 where
  pub interrupt_start_calm :
      (m s : ℕ) (w : World) → Calm g r m w → Calm g r m (d.interrupt_start s w).1
  pub check_restart_calm : (m s : ℕ) (w : World) → Calm g r m w → Calm g r m (d.check_restart s w).1

module _ {g : Graph} {r : List ℕ} (i : IsDistinct r)
    (known : (l : ℕ) → contains r (g.link l).from ≡ true) (d : Dispatch) (c : IsCalm g r d) where
  decide_restart-Calm :
      (m : ℕ) (b : Bool) (s : ℕ) {w : World} → Calm g r m w → Calm g r m (decide_restart d b s w).1
  unfolding decide_restart
  decide_restart-Calm m b s h = search (if-pair-Calm, modify-Calm, c.check_restart_calm) depth 9

  set_stopping-Calm :
      (m : ℕ) (b : Bool) (s : ℕ) {w : World} → Calm g r m w → Calm g r m (set_stopping d b s w)
  unfolding set_stopping
  set_stopping-Calm m b s h = search calm_writes depth 9

  give_up_start-Calm : (m s : ℕ) {w : World} → Calm g r m w → Calm g r m (give_up_start d s w).1
  unfolding give_up_start
  give_up_start-Calm m s h = search (calm_writes, if-pair-Calm, c.interrupt_start_calm) depth 12

  finish_stop-Calm :
      (m : ℕ) (b : Bool) (s : ℕ) {w : World} → Calm g r m w → Calm g r m (finish_stop d b s w)
  unfolding finish_stop
  finish_stop-Calm m b s h = search (if-Calm, set_stopping-Calm, give_up_start-Calm) depth 9

  do_stop_with-Calm :
      (m : ℕ) (stop : ℕ → World → World) (b : Bool) (s : ℕ) {w : World}
      → Stops g r m stop
      → Calm g r m w
      → Calm g r m (do_stop_with d stop b s w)
  unfolding do_stop_with
  do_stop_with-Calm m stop b s {w} keep h =
      search
        (
          if-Calm,
          modify-Calm,
          decide_restart-Calm,
          release_explicit-Calm,
          stop_dependents-Calm {g = g} i known,
          finish_stop-Calm,
        )
        depth 14

  pub do_stop_fuel-Calm :
      (n m : ℕ) (b : Bool) (s : ℕ) (w : World)
      → m < n
      → Calm g r m w
      → Calm g r m (do_stop_fuel d n b s w)
  unfolding do_stop_fuel
  do_stop_fuel-Calm zero m b s w lt h = absurd (omega arith)
  do_stop_fuel-Calm (suc n) m b s w lt h =
      do_stop_with-Calm m (do_stop_fuel d n false) b s
        (λ k t u kl c. do_stop_fuel-Calm n k false t u (omega arith) c) h

held-le-length : (h : ℕ → Bool) (r : List ℕ) → held h r ≤ length r
held-le-length h [] = omega arith
held-le-length h (s ∷ r) = ground (arith, held-le-length h r)

-- If the records are distinct and hold the dependent of every link, and the virtual
-- functions neither run out of fuel nor mark services as explicitly started, `do_stop` does
-- not run out of fuel, and marks no more services as explicitly started than were marked.
pub do_stop_enough :
    (w : World) (d : Dispatch)
    → IsDistinct w.records
    → ((l : ℕ) → contains w.records (w.graph.link l).from ≡ true)
    → IsCalm w.graph w.records d
    → w.out_of_fuel ≡ false
    → (b : Bool) (s : ℕ)
    → ((do_stop d b s w).out_of_fuel ≡ false)
      × (held (λ t. ((do_stop d b s w).svc t).start_explicit) w.records
          ≤ held (λ t. (w.svc t).start_explicit) w.records)
unfolding do_stop
do_stop_enough w d i known c e b s = (after.fuelled, after.few)
  where
    count : ℕ
    count = held (λ t. (w.svc t).start_explicit) w.records

    after : Calm w.graph w.records count (do_stop_fuel d (suc (length w.records)) b s w)
    after =
        do_stop_fuel-Calm i known d c (suc (length w.records)) count b s w
          (omega (arith, held-le-length (λ t. (w.svc t).start_explicit) w.records))
          (record { fuelled = e; few = omega arith; same_graph = refl })
