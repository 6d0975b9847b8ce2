-- ===== src/Service/Refs/Requiring.antt =====
-- The accounting of references when `do_propagation` of cdinit/dinit/src/service.cc requires the
-- dependencies of a service.
use cdinit.Base.{
  ℕ, Bool, true, false, ◌≡◌, ap, fun_ext, ◌∙◌, List, [], ◌∷◌, contains, arith, Bool-cases, inl, inr,
  ◌⊎◌, update,
}
use cdinit.Service.Types.{Graph, World}
use cdinit.Service.State.{
  to, is_only_ordering, is_ordering_type, each, modify, set_holding_acq, add_prop_queue,
}
use cdinit.Service.Start.{require}
use cdinit.Service.Propagation.{require_link}
use cdinit.Service.Refs.Defs.{Owes, IsGraph, IsDistinct}
use cdinit.Service.Refs.Writes.{take_hold-Owes, hold_again-Owes}
use cdinit.Service.Refs.Stopping.{if-Owes}
use cdinit.Service.Refs.Starting.{require-Owes}

-- None of the links is held, but for those that only order.
abbrev pub IsUnheld : Graph → (ℕ → Bool) → List ℕ → Type 0
IsUnheld g h [] = Unit
IsUnheld g h (l ∷ ls) =
    ((is_ordering_type (g.link l).dep_type ≡ true) ⊎ (h l ≡ false)) × IsUnheld g h ls

IsUnheld-update :
    (g : Graph) (h : ℕ → Bool) (l : ℕ) (ls : List ℕ)
    → contains ls l ≡ false
    → IsUnheld g h ls
    → IsUnheld g (update h l true) ls
IsUnheld-update g h l [] a u = tt
IsUnheld-update g h l (k ∷ ls) a u =
    (ground (arith, a, u.0), IsUnheld-update g h l ls (ground (arith, a)) u.1)

module _ {g : Graph} (v : IsGraph g) where
  pub to_dependents :
      {p : List ℕ} (s l : ℕ) {w : World}
      → contains (g.depends_on s) l ≡ true
      → Owes g p w
      → contains (g.dependents (to l w)) l ≡ true
  to_dependents s l m h = rw (ap (λ k. (k.link l).to) h.same_graph) (v.listed s l m)

  pub holding-require : (t : ℕ) (w : World) (l : ℕ) → (require t w).holding_acq l ≡ w.holding_acq l
  unfolding require modify add_prop_queue
  holding-require t w l = ground arith

  -- A link that is not held takes hold; the accounts stay settled.
  require_link-Owes :
      {p : List ℕ} (s l : ℕ) {w : World}
      → contains (g.depends_on s) l ≡ true
      → w.holding_acq l ≡ false
      → Owes g p w
      → Owes g p (require_link l w)
  unfolding require_link
  require_link-Owes s l {w} m e h =
      if-Owes (is_only_ordering l w) w (set_holding_acq l true (require (to l w) w)) (λ _. h)
        (λ _.
          take_hold-Owes v (to l w) l (to_dependents s l m h) (holding-require (to l w) w l ∙ e)
            (require-Owes (to l w) h))

  is_only_ordering_of :
      (l : ℕ) (w : World)
      → is_ordering_type (w.graph.link l).dep_type ≡ true
      → is_only_ordering l w ≡ true
  unfolding is_only_ordering
  is_only_ordering_of l w e = e

  skip_ordering : (l : ℕ) (w : World) → is_only_ordering l w ≡ true → require_link l w ≡ w
  unfolding require_link
  skip_ordering l w e = rw (e, require_link)

  IsUnheld-require_link :
      (l : ℕ) (ls : List ℕ) (w : World)
      → contains ls l ≡ false
      → IsUnheld g w.holding_acq ls
      → IsUnheld g (require_link l w).holding_acq ls
  unfolding require_link set_holding_acq
  IsUnheld-require_link l ls w a u = elim (Bool-cases (is_only_ordering l w)) [
    | inl e ↦ rw (e, require_link) u
    | inr e ↦
        rw (e, require_link, fun_ext (holding-require (to l w) w))
          (IsUnheld-update g w.holding_acq l ls a u)
  ]

  pub require_all-Owes :
      {p : List ℕ} (s : ℕ) (ls : List ℕ) {w : World}
      → ((l : ℕ) → contains ls l ≡ true → contains (g.depends_on s) l ≡ true)
      → IsDistinct ls
      → IsUnheld g w.holding_acq ls
      → Owes g p w
      → Owes g p (each require_link ls w)
  unfolding each
  require_all-Owes s [] within i u h = h
  require_all-Owes {p} s (l ∷ ls) {w} within i u h =
      require_all-Owes s ls (λ k m. within k (ground (arith, m))) i.1
        (IsUnheld-require_link l ls w i.0 u.1) (first u.0)
    where
      first :
          (is_ordering_type (g.link l).dep_type ≡ true) ⊎ (w.holding_acq l ≡ false)
          → Owes g p (require_link l w)
      first (inl e) =
          rw
            (skip_ordering l w (
              is_only_ordering_of l w
                (ap (λ k. is_ordering_type (k.link l).dep_type) h.same_graph ∙ e)))
            h
      first (inr e) = require_link-Owes s l (within l (ground arith)) e h

  -- Whatever the links hold, no recorded reference is missing from the counts.
  pub require_link-surplus :
      {p : List ℕ} (s l : ℕ) {w : World}
      → contains (g.depends_on s) l ≡ true
      → Owes g p w
      → (q : List ℕ) × Owes g q (require_link l w)
  unfolding require_link
  require_link-surplus {p} s l {w} m h = elim (Bool-cases (is_only_ordering l w)) [
    | inl e ↦ (p, rw (e, require_link) h)
    | inr e ↦ elim (Bool-cases (w.holding_acq l)) [
      | inl k ↦ (
        to l w ∷ p,
        rw (e, require_link)
            (hold_again-Owes v l (holding-require (to l w) w l ∙ k) (require-Owes (to l w) h)),
      )
      | inr k ↦ (p, unfold require_link in require_link-Owes s l m k h)
    ]
  ]
