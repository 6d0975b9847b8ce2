-- ===== src/Service/Refs/Commands.antt =====
-- The accounting of references through the commands of cdinit/dinit/src/service.cc and the queues of
-- cdinit/dinit/src/includes/service.h.
use cdinit.Base.{ℕ, zero, suc, if◌then◌else◌, Bool, true, false, ◌||◌, ◌&&◌, refl, List, [], ◌∷◌}
use cdinit.Service.Types.{Graph, World, ShutdownType, is_stopped, is_started}
use cdinit.Service.State.{Dispatch, each, modify}
use cdinit.Service.DoStop.{do_stop}
use cdinit.Service.Commands.{
  request_pin, pin_start, deactivate, release_if_unrequired, stop, process_queues, unpin_start,
  unpin, stop_unpinned, release_unpinned, start_service, stop_service, stop_all_services,
  set_trigger,
}
use cdinit.Service.Refs.Defs.{Owes, Covered, IsGraph}
use cdinit.Service.Refs.Writes.{
  modify-Owes, drop_explicit-Owes, run_out_of_fuel-Owes, each-keeps, each_dependency-Owes,
}
use cdinit.Service.Refs.Stopping.{writes, if-Owes}
use cdinit.Service.Refs.Starting.{start-Owes}
use cdinit.Service.Refs.DoStop.{Covers, do_stop-Owes}
use cdinit.Service.Refs.Covering.{
  if-Covered_lem, modify-Covered, started-Covered, execute_transition-Covered,
}
use cdinit.Service.Refs.Propagation.{queue_pin-Owes, do_propagation-Covered}

module _ {g : Graph} {p : List ℕ} where
  request_pin-Owes : (b : Bool) (l : ℕ) {w : World} → Owes g p w → Owes g p (request_pin b l w)
  unfolding request_pin
  request_pin-Owes b l h = search (if-Owes, queue_pin-Owes) depth 9

  request_all-Owes :
      (b : Bool) (s : ℕ) {w : World}
      → Owes g p w
      → Owes g p (each (request_pin b) (w.graph.depends_on s) w)
  request_all-Owes b s h = each_dependency-Owes _ s (λ l u m k. request_pin-Owes b l k) h

  pub pin_start-Owes : (s : ℕ) {w : World} → Owes g p w → Owes g p (pin_start s w)
  unfolding pin_start
  pin_start-Owes s h = search (if-Owes, modify-Owes, request_all-Owes) depth 9

  deactivate-Owes : (b : Bool) (s : ℕ) {w : World} → Owes g p w → Owes g p (deactivate b s w)
  unfolding deactivate
  deactivate-Owes b s h = search (if-Owes, modify-Owes, drop_explicit-Owes) depth 9

  release_if_unrequired-Owes :
      (s : ℕ) {w : World} → Owes g p w → Owes g p (release_if_unrequired s w)
  unfolding release_if_unrequired
  release_if_unrequired-Owes s h = search writes depth 9

  release_unpinned-Owes : (s : ℕ) {w : World} → Owes g p w → Owes g p (release_unpinned s w)
  unfolding release_unpinned
  release_unpinned-Owes s h = search writes depth 9

module _ {g : Graph} where
  if-Covered : (b : Bool) (x y : World) → Covered g x → Covered g y → Covered g (if b then x else y)
  if-Covered true x y h k = h
  if-Covered false x y h k = k

module _ {g : Graph} (v : IsGraph g) (d : Dispatch) (c : Covers g d) where
  -- The adjacency lists of the links agree with each other, and the virtual functions keep
  -- the accounts up to a surplus. Then `stop` keeps the accounts: if in every service `required_by` is 1
  -- for the explicit activation, plus the dependents' links that hold the service, plus
  -- what is still owed for it, the same is so after.
  pub stop-Owes :
      {p : List ℕ} (bring_down : Bool) (s : ℕ) {w : World}
      → Owes g p w
      → Owes g p (stop d bring_down s w)
  unfolding stop
  stop-Owes bring_down s h =
      search
        (
          if-Owes,
          modify-Owes,
          deactivate-Owes,
          release_if_unrequired-Owes,
          do_stop-Owes v d c.within_stop,
        )
        depth 12

  pop_prop-Covered :
      (rest : List ℕ) {w : World} → Covered g w → Covered g (record w { prop_queue = rest })
  pop_prop-Covered rest h = (h.0, record { same_graph = h.1.same_graph; counted = h.1.counted })

  pop_stop-Covered :
      (rest : List ℕ) {w : World} → Covered g w → Covered g (record w { stop_queue = rest })
  pop_stop-Covered rest h = (h.0, record { same_graph = h.1.same_graph; counted = h.1.counted })

  end_fuel-Covered : (w : World) → Covered g w → Covered g (process_queues d zero w)
  unfolding process_queues
  end_fuel-Covered w h = (h.0, search (if-Owes, run_out_of_fuel-Owes))

  round-Covered :
      (n : ℕ) (q r : List ℕ) (w : World)
      → ((u : World) → Covered g u → Covered g (process_queues d n u))
      → Covered g w
      → Covered g (process_queues d (suc n) (record w { prop_queue = q; stop_queue = r }))
  unfolding process_queues
  round-Covered n (next ∷ rest) r w ih h =
      ih _ (do_propagation-Covered v d c next _ (pop_prop-Covered rest (pop_stop-Covered r h)))
  round-Covered n [] (next ∷ rest) w ih h =
      ih _ (execute_transition-Covered v d c next (pop_stop-Covered rest (pop_prop-Covered [] h)))
  round-Covered n [] [] w ih h = pop_stop-Covered [] (pop_prop-Covered [] h)

  -- The adjacency lists of the links agree with each other, and the virtual functions keep
  -- the accounts up to a surplus. Then for `process_queues`, for any number of rounds: if `required_by` of
  -- every service is no less than its explicit activation and the links that hold it, with
  -- a known surplus, the same is so after.
  pub process_queues-Covered : (n : ℕ) (w : World) → Covered g w → Covered g (process_queues d n w)
  process_queues-Covered zero w h = end_fuel-Covered w h
  process_queues-Covered (suc n) w h =
      round-Covered n w.prop_queue w.stop_queue w (process_queues-Covered n) h

  stop_unpinned-Covered : (n s : ℕ) (w : World) → Covered g w → Covered g (stop_unpinned d n s w)
  unfolding stop_unpinned
  stop_unpinned-Covered n s w h =
      if-Covered (is_stopped (w.svc s).desired_state || (w.svc s).force_stop)
        (process_queues d n (do_stop d false s w)) w
        (process_queues-Covered n _ (h.0, do_stop-Owes v d c.within_stop false s w h.1)) h

  unpin_start-Covered : (n s : ℕ) (w : World) → Covered g w → Covered g (unpin_start d n s w)
  unfolding unpin_start
  unpin_start-Covered n s w h =
      let u = each (request_pin true) (w.graph.depends_on s) w in
      let k = request_all-Owes true s h.1 in
      if-Covered (is_started (u.svc s).service_state) (stop_unpinned d n s (release_unpinned s u)) u
        (stop_unpinned-Covered n s _ (h.0, release_unpinned-Owes s k)) (h.0, k)

  -- The adjacency lists of the links agree with each other, and the virtual functions keep
  -- the accounts up to a surplus. Then for `unpin`, which processes the queues: if `required_by` of every
  -- service is no less than its explicit activation and the links that hold it, with a
  -- known surplus, the same is so after.
  pub unpin-Covered : (n s : ℕ) (w : World) → Covered g w → Covered g (unpin d n s w)
  unfolding unpin
  unpin-Covered n s w h =
      let w1 = modify s (λ x. record x { pinned_started = false }) w in
      let k : Covered g w1 = (h.0, modify-Owes s _ (λ x. refl) (λ x. refl) h.1) in
      let w2 = if (w.svc s).pinned_started then unpin_start d n s w1 else w in
      let k2 : Covered g w2 =
        if-Covered (w.svc s).pinned_started (unpin_start d n s w1) w (unpin_start-Covered n s w1 k)
          h in
      if-Covered ((w.svc s).pinned_started && (w.svc s).dept_pinned_started) w1
        (modify s (λ x. record x { pinned_stopped = false }) w2) k
        (k2.0, modify-Owes s _ (λ x. refl) (λ x. refl) k2.1)

  -- The adjacency lists of the links agree with each other, and the virtual functions keep
  -- the accounts up to a surplus. Then for `stop_all_services`: if `required_by` of every service is no
  -- less than its explicit activation and the links that hold it, with a known surplus,
  -- the same is so after.
  pub stop_all_services-Covered :
      (n : ℕ) (type : ShutdownType) (w : World)
      → Covered g w
      → Covered g (stop_all_services d n type w)
  unfolding stop_all_services
  stop_all_services-Covered n type w h = process_queues-Covered n _ (
      each-keeps (Covered g) _ w.records _
        (λ s u m k. unpin-Covered n s _ (k.0, stop-Owes false s k.1))
        (h.0, record { same_graph = h.1.same_graph; counted = h.1.counted }))

  pub set_trigger-Covered :
      (b : Bool) (s : ℕ) {w : World} → Covered g w → Covered g (set_trigger d b s w)
  unfolding set_trigger
  set_trigger-Covered b s h = search (if-Covered_lem, modify-Covered, started-Covered v d c) depth 9

  -- The adjacency lists of the links agree with each other, and the virtual functions keep
  -- the accounts up to a surplus. Then for `start_service`, which processes the queues: if `required_by`
  -- of every service is no less than its explicit activation and the links that hold it,
  -- with a known surplus, the same is so after.
  pub start_service-Covered :
      (n s : ℕ) (w : World) → Covered g w → Covered g (start_service d n s w)
  unfolding start_service
  start_service-Covered n s w h = process_queues-Covered n _ (h.0, start-Owes v s h.1)

  -- The adjacency lists of the links agree with each other, and the virtual functions keep
  -- the accounts up to a surplus. Then for `stop_service`, which processes the queues: if `required_by` of
  -- every service is no less than its explicit activation and the links that hold it, with
  -- a known surplus, the same is so after.
  pub stop_service-Covered : (n s : ℕ) (w : World) → Covered g w → Covered g (stop_service d n s w)
  unfolding stop_service
  stop_service-Covered n s w h = process_queues-Covered n _ (h.0, stop-Owes true s h.1)
