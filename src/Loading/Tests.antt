-- ===== src/Loading/Tests.antt =====
-- The check for cycles of cdinit/dinit/src/load-service.cc at three services.
use cdinit.Base.{
  if_case, arith, ℕ, [], ◌∷◌, if◌then◌else◌, ◌==◌, ◌≡◌, ◌↔◌, refl, contains, true, List,
}
use cdinit.Service.Types.{Graph, DependencyType}
use cdinit.Loading.Cycle.{check_cycle, cyclic, acyclic, targets, linked_to}
use cdinit.Loading.Cycle.Exact.{Needs}
use cdinit.Loading.Cycle.Ends.{check_cycle_iff}

-- Service 1 depends on service 2 by link 0, service 2 on service 3 by link 1.
abbrev chain : Graph
chain = record {
  depends_on = λ s. if s == 1 then 0 ∷ [] else (if s == 2 then 1 ∷ [] else []);
  dependents = λ s. if s == 2 then 0 ∷ [] else (if s == 3 then 1 ∷ [] else []);
  link = λ l.
      if l == 0
      then record { from = 1; to = 2; dep_type = DependencyType.regular }
      else record { from = 2; to = 3; dep_type = DependencyType.regular };
}

abbrev records : List ℕ
records = 1 ∷ 2 ∷ 3 ∷ []

-- A dependency of service 3 on service 1 closes a cycle, one on service 3 of service 1 does not.
found : check_cycle chain 4 (1 ∷ []) 3 ≡ cyclic
unfolding check_cycle
found = refl

not_found : check_cycle chain 4 (3 ∷ []) 1 ≡ acyclic
unfolding check_cycle
not_found = refl

in_records : (k : ℕ) → contains (1 ∷ []) k ≡ true → contains records k ≡ true
in_records k h = ground (arith, h)

closed :
    (s : ℕ)
    → contains records s ≡ true
    → (k : ℕ) → contains (targets chain s) k ≡ true
    → contains records k ≡ true
closed s h =
    if_case (s == 1)
      (λ ls. (k : ℕ) → contains (linked_to chain ls) k ≡ true → contains records k ≡ true) (0 ∷ [])
      (if s == 2 then 1 ∷ [] else []) (λ _ k m. ground (arith, m))
      (λ _.
        if_case (s == 2)
          (λ ls. (k : ℕ) → contains (linked_to chain ls) k ≡ true → contains records k ≡ true)
          (1 ∷ []) [] (λ _ k m. ground (arith, m)) (λ _ k m. absurd (cc m)))

check_cycle_iff_example :
    ((check_cycle chain 4 (1 ∷ []) 3 ≡ cyclic) ↔ Needs chain (1 ∷ []) 3)
    × ((check_cycle chain 4 (1 ∷ []) 3 ≡ acyclic) ↔ (¬ Needs chain (1 ∷ []) 3))
check_cycle_iff_example = check_cycle_iff chain (1 ∷ []) records 3 in_records closed
