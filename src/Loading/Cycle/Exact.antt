-- ===== src/Loading/Cycle/Exact.antt =====
-- What `check_cycle` of cdinit/dinit/src/load-service.cc finds out about the dependencies.
use cdinit.Base.{
  ℕ, zero, suc, ◌<◌, ◌==◌, Bool, true, false, ◌||◌, Option, none, some, List, [], ◌∷◌, contains,
  arith, ◌≡◌, refl, ap, sym, ◌∙◌, Bool-cases, ◌⊎◌, inl, inr, elim_option,
}
use cdinit.Service.Types.{Graph}
use cdinit.Loading.Cycle.{
  scan, targets, get?, Outcome, cyclic, acyclic, out_of_fuel, unless_found, walk, check_cycle,
}
use cdinit.Loading.Cycle.Scan.{Adds, HasScanned, found, added, scan-HasScanned}

-- The services that one depends on, directly or not, by the dependencies `deps` on services and the
-- links of the services that are loaded.
pub data Needs (g : Graph) (deps : List ℕ) : ℕ → Type 0 where
  directly : {t : ℕ} → contains deps t ≡ true → Needs g deps t
  through : {s t : ℕ} → Needs g deps s → contains (targets g s) t ≡ true → Needs g deps t

-- An outcome that is right about `orig`.
pub data IsRight (g : Graph) (deps : List ℕ) (orig : ℕ) : Outcome → Type 0 where
  needed : Needs g deps orig → IsRight g deps orig cyclic
  unneeded : ¬ Needs g deps orig → IsRight g deps orig acyclic
  unknown : IsRight g deps orig out_of_fuel

pub either : (a b : Bool) → (a || b) ≡ true → (a ≡ true) ⊎ (b ≡ true)
either true b h = inl refl
either false b h = inr h

left_or : (a b c : Bool) → c ≡ (a || b) → a ≡ true → c ≡ true
left_or true b c e h = e
left_or false b c e h = absurd (cc)

right_or : (a b c : Bool) → c ≡ (a || b) → b ≡ true → c ≡ true
right_or true b c e h = e
right_or false b c e h = e ∙ h

position : (p : List ℕ) (k : ℕ) → contains p k ≡ true → (j : ℕ) × (get? p j ≡ some k)
position [] k h = absurd (cc)
position (x ∷ p) k h = elim (Bool-cases (x == k)) [
  | inl e ↦ (0, ap (λ (y : ℕ). some y) {x = x} {y = k} (ground arith))
  | inr e ↦ let (j, f) = position p k (ground (arith, h)) in (suc j, f)
]

pub get?-contains : (p : List ℕ) (j s : ℕ) → get? p j ≡ some s → contains p s ≡ true
get?-contains [] j s e = absurd (cc)
get?-contains (x ∷ p) zero s e = let f : x ≡ s = cc in ground arith
get?-contains (x ∷ p) (suc j) s e = ground (arith, get?-contains p j s e)

get?-beyond : (p : List ℕ) (i j s : ℕ) → get? p i ≡ none → get? p j ≡ some s → j < i
get?-beyond [] i j s e f = absurd (cc)
get?-beyond (x ∷ p) zero j s e f = absurd (cc)
get?-beyond (x ∷ p) (suc i) zero s e f = omega arith
get?-beyond (x ∷ p) (suc i) (suc j) s e f = omega (arith, get?-beyond p i j s e f)

below : (j i : ℕ) → j < suc i → (j < i) ⊎ (j ≡ i)
below j i l = elim (Bool-cases (j == i)) [ inl e ↦ inr (ground arith) | inr e ↦ inl (ground arith) ]

earlier : (p : List ℕ) (i j s : ℕ) → get? p i ≡ some s → j < i → (t : ℕ) × (get? p j ≡ some t)
earlier [] i j s e l = absurd (cc)
earlier (x ∷ p) zero j s e l = absurd (omega arith)
earlier (x ∷ p) (suc i) zero s e l = (x, refl)
earlier (x ∷ p) (suc i) (suc j) s e l = earlier p i j s e (omega arith)

-- What holds at the position `i` of the pending services: they are needed, they hold the first
-- dependencies and those of the services before `i`, and not `orig`.
record IsPartway (g : Graph) (deps : List ℕ) (orig i : ℕ) (p : List ℕ) : Type 0 where
  needs : (k : ℕ) → contains p k ≡ true → Needs g deps k
  first : (k : ℕ) → contains deps k ≡ true → contains p k ≡ true
  behind :
      (j s : ℕ)
      → j < i
      → get? p j ≡ some s
      → (k : ℕ) → contains (targets g s) k ≡ true
      → contains p k ≡ true
  without : contains p orig ≡ false

module _ (g : Graph) (deps : List ℕ) (orig : ℕ) where
  all_within :
      (i : ℕ) (p : List ℕ)
      → IsPartway g deps orig i p
      → get? p i ≡ none
      → (k : ℕ) → Needs g deps k
      → contains p k ≡ true
  all_within i p h e k (directly m) = h.first k m
  all_within i p h e k (through {s = s} n m) =
      let (j, f) = position p s (all_within i p h e s n) in
      h.behind j s (get?-beyond p i j s e f) f k m

  -- The services before the next position have their dependencies in the set.
  behind_next :
      (i s : ℕ) (p q : List ℕ)
      → IsPartway g deps orig i p
      → get? p i ≡ some s
      → Adds p (targets g s) q
      → (j t : ℕ) → (j < i) ⊎ (j ≡ i)
      → get? q j ≡ some t
      → (k : ℕ) → contains (targets g t) k ≡ true
      → contains q k ≡ true
  behind_next i s p q h e a j t (inl l) f k m =
      let (u, x) = earlier p i j s e l in
      let y : u ≡ t = cc (a.kept j u x) in
      left_or (contains p k) (contains (targets g s) k) (contains q k) (a.members k)
        (h.behind j t l (x ∙ ap (λ (z : ℕ). some z) y) k m)
  behind_next i s p q h e a j t (inr l) f k m =
      let x : get? q j ≡ some s = ap (get? q) l ∙ a.kept i s e in
      let y : s ≡ t = cc in
      right_or (contains p k) (contains (targets g s) k) (contains q k) (a.members k)
        (ap (λ z. contains (targets g z) k) y ∙ m)

  onward :
      (i s : ℕ) (p q : List ℕ)
      → IsPartway g deps orig i p
      → get? p i ≡ some s
      → contains (targets g s) orig ≡ false
      → Adds p (targets g s) q
      → IsPartway g deps orig (suc i) q
  onward i s p q h e c a = record {
    needs = λ k m. elim (either (contains p k) (contains (targets g s) k) (sym (a.members k) ∙ m)) [
      | inl x ↦ h.needs k x
      | inr x ↦ through (h.needs s (get?-contains p i s e)) x
    ];
    first = λ k m.
        left_or (contains p k) (contains (targets g s) k) (contains q k) (a.members k)
          (h.first k m);
    behind = λ j t l f k m. behind_next i s p q h e a j t (below j i l) f k m;
    without = ground (arith, a.members orig, h.without, c);
  }

  visit :
      (n i s : ℕ) (p : List ℕ) (o : Option (List ℕ))
      → IsPartway g deps orig i p
      → get? p i ≡ some s
      → HasScanned orig p (targets g s) o
      → ((q : List ℕ)
          → IsPartway g deps orig (suc i) q
          → IsRight g deps orig (walk g orig n (suc i) q))
      → IsRight g deps orig (unless_found o (λ q. walk g orig n (suc i) q))
  visit n i s p o h e (found c) k = needed (through (h.needs s (get?-contains p i s e)) c)
  visit n i s p o h e (added c a) k = k _ (onward i s p _ h e c a)

  walk-IsRight :
      (n i : ℕ) (p : List ℕ) → IsPartway g deps orig i p → IsRight g deps orig (walk g orig n i p)
  unfolding walk
  walk-IsRight zero i p h = unknown
  walk-IsRight (suc n) i p h =
      elim_option (get? p i) (IsRight g deps orig) acyclic
        (λ s. unless_found (scan orig p (targets g s)) (λ q. walk g orig n (suc i) q))
        (λ e. unneeded (λ x. absurd (cc (all_within i p h e orig x, h.without))))
        (λ s e.
          visit n i s p (scan orig p (targets g s)) h e (scan-HasScanned orig p (targets g s))
            (λ q k. walk-IsRight n (suc i) q k))

  begun :
      (n : ℕ) (o : Option (List ℕ))
      → HasScanned orig [] deps o
      → IsRight g deps orig (unless_found o (λ q. walk g orig n 0 q))
  begun n o (found c) = needed (directly c)
  begun n o (added {q = q} c a) = walk-IsRight n 0 q (record {
    needs = λ k m. directly (sym (a.members k) ∙ m);
    first = λ k m. a.members k ∙ m;
    behind = λ j s l. absurd (omega arith);
    without = a.members orig ∙ c;
  })

  -- Whatever the dependencies are: if the check reports a cycle, the service is needed by the new
  -- dependencies, directly or not, and if it reports none, it is not.
  pub check_cycle-IsRight : (n : ℕ) → IsRight g deps orig (check_cycle g n deps orig)
  unfolding check_cycle
  check_cycle-IsRight n = begun n (scan orig [] deps) (scan-HasScanned orig [] deps)
