-- ===== src/Loading/Cycle/Scan.antt =====
-- The loops over dependencies in `check_cycle` of cdinit/dinit/src/load-service.cc.
use cdinit.Base.{
  contains-append, IsDistinct, IsDistinct-append, if_case, ℕ, zero, suc, ◌==◌, Bool, true, false,
  ◌||◌, Option, none, some, List, [], ◌∷◌, ◌++◌, contains, arith, ◌≡◌, refl, ap, ◌∙◌,
}
use cdinit.Loading.Cycle.{add_back, scan, get?}

-- The set `q` is `p` with `ts` added behind.
pub record Adds (p ts q : List ℕ) : Type 0 where
  pub members : (k : ℕ) → contains q k ≡ (contains p k || contains ts k)
  pub kept : (j s : ℕ) → get? p j ≡ some s → get? q j ≡ some s
  pub distinct : IsDistinct p → IsDistinct q

get?-append : (p r : List ℕ) (j s : ℕ) → get? p j ≡ some s → get? (p ++ r) j ≡ some s
get?-append [] r j s e = absurd (cc)
get?-append (x ∷ p) r zero s e = e
get?-append (x ∷ p) r (suc j) s e = get?-append p r j s e

already : (a b c : Bool) → (c ≡ true → a ≡ true) → a ≡ (a || (c || false))
already true b c h = refl
already false b true h = cc (h refl)
already false b false h = refl

is_true : (x k : ℕ) (p : List ℕ) → contains p x ≡ true → (x == k) ≡ true → contains p k ≡ true
is_true x k p h e = let f : k ≡ x = ground arith in ap (contains p) f ∙ h

add_back-Adds : (p : List ℕ) (t : ℕ) → Adds p (t ∷ []) (add_back p t)
unfolding add_back
add_back-Adds p t =
    if_case (contains p t) (Adds p (t ∷ [])) p (p ++ (t ∷ []))
      (λ h. record {
        members = λ k. already (contains p k) true (t == k) (λ e. is_true t k p h e);
        kept = λ j s e. e;
        distinct = λ d. d;
      })
      (λ h. record {
        members = λ k. ground (arith, contains-append p t k);
        kept = λ j s e. get?-append p (t ∷ []) j s e;
        distinct = λ d. IsDistinct-append p t h d;
      })

then-Adds : (p q r ts : List ℕ) (t : ℕ) → Adds p (t ∷ []) q → Adds q ts r → Adds p (t ∷ ts) r
then-Adds p q r ts t h k = record {
  members = λ x. ground (arith, h.members x, k.members x);
  kept = λ j s e. k.kept j s (h.kept j s e);
  distinct = λ d. k.distinct (h.distinct d);
}

-- What a loop finds.
pub data HasScanned (orig : ℕ) (p ts : List ℕ) : Option (List ℕ) → Type 0 where
  found : contains ts orig ≡ true → HasScanned orig p ts none
  added : {q : List ℕ} → contains ts orig ≡ false → Adds p ts q → HasScanned orig p ts (some q)

pub scan-HasScanned : (orig : ℕ) (p ts : List ℕ) → HasScanned orig p ts (scan orig p ts)
unfolding scan
scan-HasScanned orig p [] =
    added refl (record { members = λ k. ground arith; kept = λ j s e. e; distinct = λ d. d })
scan-HasScanned orig p (t ∷ ts) =
    if_case (t == orig) (HasScanned orig p (t ∷ ts)) none (scan orig (add_back p t) ts)
      (λ e. found (rw e refl)) (λ e. further e (scan-HasScanned orig (add_back p t) ts))
  where
    further :
        {o : Option (List ℕ)}
        → (t == orig) ≡ false
        → HasScanned orig (add_back p t) ts o
        → HasScanned orig p (t ∷ ts) o
    further e (found h) = found (rw (e, h) refl)
    further e (added h a) =
        added (rw (e, h) refl) (then-Adds p (add_back p t) _ ts t (add_back-Adds p t) a)
