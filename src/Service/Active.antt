-- ===== src/Service/Active.antt =====
-- What `active_services` of cdinit/dinit/src/includes/service.h counts when a service stops in
-- cdinit/dinit/src/service.cc.
use cdinit.Base.{ℕ, if◌then◌else◌, Bool, true, false, ◌≡◌, ap}
use cdinit.Service.Types.{ℤ, Output, World, Service, decrement, is_zero}
use cdinit.Service.State.{Dispatch, modify, emit, add_prop_queue, service_inactive}
use cdinit.Service.Stop.{release_inactive, release_then, release_quietly, release_explicit}
use cdinit.Service.Transition.{become_inactive}

if-active :
    {a : ℤ} (b : Bool) (x y : World)
    → x.active_services ≡ a
    → y.active_services ≡ a
    → (if b then x else y).active_services ≡ a
if-active true x y h k = h
if-active false x y h k = k

module _ {a : ℤ} (s : ℕ) where
  inactive-active :
      (w : World) → w.active_services ≡ a → (release_inactive (λ u. u) s w).active_services ≡ a
  unfolding release_inactive modify add_prop_queue
  inactive-active w h = search if-active

  modify-active :
      (f : Service → Service) (w : World)
      → w.active_services ≡ a
      → (modify s f w).active_services ≡ a
  unfolding modify
  modify-active f w h = h

  emit-active : (o : Output) (w : World) → w.active_services ≡ a → (emit o w).active_services ≡ a
  unfolding emit
  emit-active o w h = h

  quietly-active : (w : World) → w.active_services ≡ a → (release_quietly s w).active_services ≡ a
  unfolding release_quietly release_then
  quietly-active w h = search (if-active, inactive-active, modify-active, emit-active) depth 9

  explicit-active : (w : World) → w.active_services ≡ a → (release_explicit s w).active_services ≡ a
  unfolding release_explicit
  explicit-active w h = search (if-active, quietly-active, modify-active) depth 9

if-split :
    (b : Bool) (x y : World) (a c : ℤ)
    → x.active_services ≡ a
    → y.active_services ≡ c
    → (if b then x else y).active_services ≡ (if b then a else c)
if-split true x y a c h k = h
if-split false x y a c h k = k

-- If `becoming_inactive` leaves `active_services`, the end of `stopped` counts the service
-- as inactive exactly if it is not explicitly started and nothing requires it; an explicitly
-- started service stays counted as active.
pub become_inactive-active :
    (d : Dispatch) (s : ℕ) (w : World)
    → (d.becoming_inactive s w).active_services ≡ w.active_services
    → (become_inactive d s w).active_services ≡ (
        if ((d.becoming_inactive s w).svc s).start_explicit
        then w.active_services
        else (if is_zero ((d.becoming_inactive s w).svc s).required_by
            then decrement w.active_services
            else w.active_services))
unfolding become_inactive service_inactive
become_inactive-active d s w h =
    let u = d.becoming_inactive s w in
    if-split (u.svc s).start_explicit _ _ w.active_services _ (explicit-active s u h)
      (if-split (is_zero (u.svc s).required_by) _ _ _ w.active_services (ap decrement h) h)
