-- ===== src/Settings/Value/Steps.antt =====
-- Properties of results, and rules for the loop of `read_setting_value` in
-- cdinit/dinit/src/includes/load-service.h.
use cdinit.Base.{ℕ, zero, suc, ◌==◌, if◌then◌else◌, Bool, true, false, [], ◌∷◌, ◌≡◌, refl, arith}
use cdinit.Settings.{Text, Error, Result, ok, err, ◌>>=◌, out_of_fuel, hashmark}
use cdinit.Settings.Chars.{quote_mark, backslash, hash_mark, is_space}
use cdinit.Settings.Value.{
  Reading, step, read_loop, quoted, escaped, after_space, after_quote, begin_part, end_part, push,
}

-- `P` of a value that is returned, `Q` of an error.
pub data Holds {ℓ} {A : Type ℓ} (P : A → Type 0) (Q : Error → Type 0) : Result A → Type ℓ where
  returns : {a : A} → P a → Holds P Q (ok a)
  fails : {e : Error} → Q e → Holds P Q (err e)

module _ {ℓ} {A : Type ℓ} {P : A → Type 0} {Q : Error → Type 0} where
  pub if-Holds :
      (b : Bool) (x y : Result A)
      → (b ≡ true → Holds P Q x)
      → (b ≡ false → Holds P Q y)
      → Holds P Q (if b then x else y)
  if-Holds true x y h k = h refl
  if-Holds false x y h k = k refl

  pub elim-Holds :
      (b : Bool) (x y : Result A)
      → (b ≡ true → Holds P Q x)
      → (b ≡ false → Holds P Q y)
      → Holds P Q (elim b [ true ↦ x | false ↦ y ])
  elim-Holds true x y h k = h refl
  elim-Holds false x y h k = k refl

  pub bind-Holds {κ} :
      {B : Type κ} {R : B → Type 0} {m : Result B} (f : B → Result A)
      → Holds R Q m
      → ((b : B) → R b → Holds P Q (f b))
      → Holds P Q (m >>= f)
  bind-Holds f (returns h) k = k _ h
  bind-Holds f (fails h) k = fails h

pub space_plain : (c : ℕ) → is_space c ≡ true → (c == backslash) ≡ false
space_plain c h = ground arith

pub quote_mark_plain : (c : ℕ) → (c == quote_mark) ≡ true → (c == backslash) ≡ false
quote_mark_plain c h = ground arith

-- The branches of a round.
pub step-Holds :
    {P : Reading → Type 0} {Q : Error → Type 0} (c : ℕ) (i : Text) (r : Reading)
    → ((c == quote_mark) ≡ true
        → Holds P Q
            (quoted i (begin_part r).setting_val >>= λ q. ok (after_quote q (begin_part r))))
    → ((c == backslash) ≡ true → Holds P Q (escaped i (begin_part r)))
    → (is_space c ≡ true → P (after_space (c ∷ i) (end_part r)))
    → Q hashmark
    → ((c == backslash) ≡ false → P (push c i (begin_part r)))
    → Holds P Q (step c i r)
unfolding step
step-Holds c i r h1 h2 h3 h4 h5 =
    let e : Result Reading =
      (if c == hash_mark then err hashmark else ok (push c i (begin_part r))) in
    let d : Result Reading = (if is_space c then ok (after_space (c ∷ i) (end_part r)) else e) in
    let b : Result Reading = (if c == backslash then escaped i (begin_part r) else d) in
    if-Holds (c == quote_mark)
      (quoted i (begin_part r).setting_val >>= λ q. ok (after_quote q (begin_part r))) b h1
      (λ _. if-Holds (c == backslash) (escaped i (begin_part r)) d h2 (λ n.
        if-Holds (is_space c) (ok (after_space (c ∷ i) (end_part r))) e (λ k. returns (h3 k))
          (λ _.
            if-Holds (c == hash_mark) (err hashmark) (ok (push c i (begin_part r))) (λ _. fails h4)
              (λ _. returns (h5 n)))))

-- What every round keeps holds of the end of the loop.
pub read_loop-Holds :
    {P : Reading → Type 0} {Q : Error → Type 0}
    → ((c : ℕ) (i : Text) (r : Reading) → r.rest ≡ c ∷ i → P r → Holds P Q (step c i r))
    → Q out_of_fuel
    → (n : ℕ) (i : Text) (r : Reading) → r.rest ≡ i
    → P r
    → Holds P Q (read_loop n i r)
unfolding read_loop
read_loop-Holds keep o n [] r e h = returns h
read_loop-Holds keep o zero (c ∷ i) r e h = fails o
read_loop-Holds keep o (suc n) (c ∷ i) r e h =
    bind-Holds (λ s. read_loop n s.rest s) (keep c i r e h)
      (λ s k. read_loop-Holds keep o n s.rest s refl k)
