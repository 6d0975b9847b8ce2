-- ===== src/Service/Limit.antt =====
-- The limit of restarts in `process_service::check_restart` of
-- cdinit/dinit/src/includes/proc-service.h.
use cdinit.Base.{ℕ, ◌+◌, ◌≤◌, ◌<◌, if◌then◌else◌, ◌≡◌, List, [], ◌∷◌, arith}
use cdinit.Service.Types.{World}
use cdinit.Service.State.{modify}
use cdinit.Service.Process.{Os, set_proc}
use cdinit.Service.Process.Base.{check_restart}

abbrev pub at_time : ℕ → Os → Os
at_time t os = record os { time = λ w. t }

-- How many restarts a sequence of calls of `check_restart` permits, at the given times.
unfoldable pub permitted : Os → List ℕ → ℕ → World → ℕ
permitted os [] s w = 0
permitted os (t ∷ ts) s w =
    let (b, w1) = check_restart (at_time t os) s w in (if b then 1 else 0) + permitted os ts s w1

abbrev pub AllBefore : ℕ → List ℕ → Type 0
AllBefore m [] = Unit
AllBefore m (t ∷ ts) = (t < m) × AllBefore m ts

-- The interval has begun, and the restarts in it are within the limit.
pub record InInterval (s m n : ℕ) (w : World) : Type 0 where
  pub begun : (w.proc s).restart_interval_time + (w.proc s).restart_interval ≡ m
  pub limit : (w.proc s).max_restart_interval_count ≡ n
  pub within : (w.proc s).restart_interval_count ≤ n

module _ (os : Os) (s m n t : ℕ) (w : World) (h : InInterval s m n w) (positive : 0 < n)
    (early : t < m) where
  check_restart-InInterval :
      let (b, w1) = check_restart (at_time t os) s w in
      InInterval s m n w1
      × ((w1.proc s).restart_interval_count
          ≡ (if b then 1 else 0) + (w.proc s).restart_interval_count)
  unfolding check_restart set_proc modify
  check_restart-InInterval = (
    record {
      begun = ground (arith, h.begun, h.limit, h.within);
      limit = ground (arith, h.begun, h.limit, h.within);
      within = ground (arith, h.begun, h.limit, h.within);
    },
    ground (arith, h.begun, h.limit, h.within),
  )

-- If the limit of restarts is set and the count of the current interval is within it, no
-- sequence of calls of `check_restart` before the end of the interval permits more restarts
-- than the limit leaves.
pub permitted_bound :
    (os : Os) (ts : List ℕ) (s m n : ℕ) (w : World)
    → InInterval s m n w
    → 0 < n
    → AllBefore m ts
    → permitted os ts s w + (w.proc s).restart_interval_count ≤ n
unfolding permitted
permitted_bound os [] s m n w h p a = omega (arith, h.within)
permitted_bound os (t ∷ ts) s m n w h p a =
    let (k, e) = check_restart-InInterval os s m n t w h p a.0 in
    omega (arith, e, permitted_bound os ts s m n (check_restart (at_time t os) s w).1 k p a.1)
