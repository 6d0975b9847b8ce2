-- ===== src/Loading/Cycle.antt =====
-- `check_cycle` of cdinit/dinit/src/load-service.cc, with `linked_uo_set` of
-- cdinit/dinit/src/includes/dinit-util.h.
pub mod Scan
pub mod Exact
pub mod Ends
use cdinit.Base.{
  ℕ, zero, suc, ◌==◌, if◌then◌else◌, Bool, true, false, Option, none, some, List, [], ◌∷◌, ◌++◌,
  contains, length,
}
use cdinit.Service.Types.{Graph, Link}

-- `linked_uo_set::add_back`: a set with the order in which its elements were added.
unfoldable pub add_back : List ℕ → ℕ → List ℕ
add_back set value = if contains set value then set else set ++ (value ∷ [])

-- One loop over dependencies, by the services that they are on: the pending services, or none for
-- the exception.
unfoldable pub scan : ℕ → List ℕ → List ℕ → Option (List ℕ)
unfolding add_back
scan orig pending [] = some pending
scan orig pending (t ∷ ts) =
    let rest = scan orig (add_back pending t) ts in if t == orig then none else rest

abbrev pub linked_to : Graph → List ℕ → List ℕ
linked_to g [] = []
linked_to g (l ∷ ls) = (g.link l).to ∷ linked_to g ls

-- The services that a service depends on.
abbrev pub targets : Graph → ℕ → List ℕ
targets g s = linked_to g (g.depends_on s)

abbrev pub get? : List ℕ → ℕ → Option ℕ
get? [] i = none
get? (x ∷ xs) zero = some x
get? (x ∷ xs) (suc i) = get? xs i

-- `cyclic` for `service_cyclic_dependency`.
pub data Outcome : Type 0 where
  cyclic acyclic out_of_fuel : Outcome

abbrev pub unless_found : Option (List ℕ) → (List ℕ → Outcome) → Outcome
unless_found none continue = cyclic
unless_found (some pending) continue = continue pending

-- The loop over the pending services, at the position `i`.
unfoldable pub walk : Graph → ℕ → ℕ → ℕ → List ℕ → Outcome
unfolding scan
walk g orig zero i pending = out_of_fuel
walk g orig (suc n) i pending = elim (get? pending i) [
  | none ↦ acyclic
  | some s ↦ unless_found (scan orig pending (targets g s)) (λ p. walk g orig n (suc i) p)
]

-- `check_cycle(deps, orig)`, by the services that the dependencies are on.
unfoldable pub check_cycle : Graph → ℕ → List ℕ → ℕ → Outcome
unfolding scan walk
check_cycle g n deps orig = unless_found (scan orig [] deps) (λ p. walk g orig n 0 p)
