-- ===== src/Loading/Cycle/Ends.antt =====
-- The end of the loop of `check_cycle` of cdinit/dinit/src/load-service.cc.
use cdinit.Base.{
  IsDistinct, if_case, elim_option, ℕ, zero, suc, ◌+◌, ◌<◌, ◌≤◌, ◌==◌, if◌then◌else◌, true, Option,
  some, List, [], ◌∷◌, contains, length, arith, ◌≡◌, ◌≢◌, ◌↔◌, refl, sym, ◌∙◌, inl, inr,
}
use cdinit.Service.Types.{Graph}
use cdinit.Loading.Cycle.{
  scan, targets, get?, Outcome, cyclic, acyclic, out_of_fuel, unless_found, walk, check_cycle,
}
use cdinit.Loading.Cycle.Scan.{Adds, HasScanned, found, added, scan-HasScanned}
use cdinit.Loading.Cycle.Exact.{
  either, get?-contains, Needs, IsRight, needed, unneeded, unknown, check_cycle-IsRight,
}

abbrev AreIn : List ℕ → List ℕ → Type 0
AreIn p r = (k : ℕ) → contains p k ≡ true → contains r k ≡ true

removed : ℕ → List ℕ → List ℕ
removed a [] = []
removed a (x ∷ xs) = let rest = removed a xs in if x == a then xs else x ∷ rest

length-removed :
    (a : ℕ) (xs : List ℕ) → contains xs a ≡ true → suc (length (removed a xs)) ≡ length xs
unfolding removed
length-removed a [] h = absurd (cc)
length-removed a (x ∷ xs) h =
    if_case (x == a) (λ r. suc (length r) ≡ suc (length xs)) xs (x ∷ removed a xs) (λ _. refl)
      (λ e. omega (arith, length-removed a xs (ground (arith, h))))

contains-removed :
    (a k : ℕ) (xs : List ℕ) → k ≢ a → contains xs k ≡ true → contains (removed a xs) k ≡ true
unfolding removed
contains-removed a k [] n h = h
contains-removed a k (x ∷ xs) n h =
    if_case (x == a) (λ r. contains r k ≡ true) xs (x ∷ removed a xs) (λ e. ground (arith, h))
      (λ e. elim (either (x == k) (contains xs k) h) [
        | inl y ↦ ground (arith, y)
        | inr y ↦ ground (arith, contains-removed a k xs n y)
      ])

distinct_length : (p r : List ℕ) → IsDistinct p → AreIn p r → length p ≤ length r
distinct_length [] r d h = omega arith
distinct_length (x ∷ p) r d h =
    let m : contains r x ≡ true = h x (ground arith) in
    let rest =
      distinct_length p (removed x r) d.1
        (λ k c. contains-removed x k r (λ e. cc (c, d.0)) (h k (ground (arith, c)))) in
    omega (arith, length-removed x r m, rest)

module _ (g : Graph) (deps records : List ℕ) (orig : ℕ) (in_records : AreIn deps records)
    (closed : (s : ℕ) → contains records s ≡ true → AreIn (targets g s) records) where
  AreIn-Adds :
      (p ts q : List ℕ) → AreIn p records → AreIn ts records → Adds p ts q → AreIn q records
  AreIn-Adds p ts q h k a x m =
      elim (either (contains p x) (contains ts x) (sym (a.members x) ∙ m)) [
        | inl y ↦ h x y
        | inr y ↦ k x y
      ]

  after_scan :
      (p ts : List ℕ) (o : Option (List ℕ)) (f : List ℕ → Outcome)
      → AreIn p records
      → AreIn ts records
      → IsDistinct p
      → HasScanned orig p ts o
      → ((q : List ℕ) → AreIn q records → IsDistinct q → f q ≢ out_of_fuel)
      → unless_found o f ≢ out_of_fuel
  after_scan p ts o f h k d (found c) keep e = cc
  after_scan p ts o f h k d (added {q = q} c a) keep e =
      keep q (AreIn-Adds p ts q h k a) (a.distinct d) e

  position_length : (p : List ℕ) (i s : ℕ) → get? p i ≡ some s → i < length p
  position_length [] i s e = absurd (cc)
  position_length (x ∷ p) zero s e = omega arith
  position_length (x ∷ p) (suc i) s e = omega (arith, position_length p i s e)

  walk_ends :
      (n i : ℕ) (p : List ℕ)
      → AreIn p records
      → IsDistinct p
      → length records < n + i
      → (i ≤ length records)
      → walk g orig n i p ≢ out_of_fuel
  unfolding walk
  walk_ends zero i p h d l m = absurd (omega arith)
  walk_ends (suc n) i p h d l m =
      elim_option (get? p i) (λ o. o ≢ out_of_fuel) acyclic
        (λ s. unless_found (scan orig p (targets g s)) (λ q. walk g orig n (suc i) q)) (λ _ e. cc)
        (λ s e.
          after_scan p (targets g s) (scan orig p (targets g s)) (λ q. walk g orig n (suc i) q) h
            (closed s (h s (get?-contains p i s e))) d (scan-HasScanned orig p (targets g s))
            (λ q k c.
              walk_ends n (suc i) q k c (omega arith)
                (omega (arith, position_length p i s e, distinct_length p records d h))))

  check_cycle_ends : check_cycle g (suc (length records)) deps orig ≢ out_of_fuel
  unfolding check_cycle
  check_cycle_ends =
      after_scan [] deps (scan orig [] deps) (λ q. walk g orig (suc (length records)) 0 q)
        (λ k m. absurd (cc m)) in_records tt (scan-HasScanned orig [] deps)
        (λ q k c. walk_ends (suc (length records)) 0 q k c (omega arith) (omega arith))

  Decides : Outcome → Type 0
  Decides o = ((o ≡ cyclic) ↔ Needs g deps orig) × ((o ≡ acyclic) ↔ (¬ Needs g deps orig))

  decided : (o : Outcome) → o ≢ out_of_fuel → IsRight g deps orig o → Decides o
  unfolding Decides
  decided o n (needed h) = ((λ _. h, λ _. refl), (λ e. absurd (cc e), λ x. absurd (x h)))
  decided o n (unneeded h) = ((λ e. absurd (cc e), λ x. absurd (h x)), (λ _. h, λ _. refl))
  decided o n unknown = absurd (n refl)

  -- If the services that the new dependencies are on, and those that services of the
  -- records depend on, are in the records, `check_cycle` comes to an end with a round for
  -- each record and one more, and it reports a cycle exactly if the service is reached
  -- from the new dependencies through any number of dependencies, and finds none exactly
  -- if it is not reached.
  pub check_cycle_iff :
      ((check_cycle g (suc (length records)) deps orig ≡ cyclic) ↔ Needs g deps orig)
      × ((check_cycle g (suc (length records)) deps orig ≡ acyclic) ↔ (¬ Needs g deps orig))
  unfolding Decides
  check_cycle_iff =
      decided (check_cycle g (suc (length records)) deps orig) check_cycle_ends
        (check_cycle-IsRight g deps orig (suc (length records)))
