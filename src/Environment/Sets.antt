-- ===== src/Environment/Sets.antt =====
-- The sets of names and of variables of cdinit/dinit/src/includes/dinit-env.h.
use cdinit.Base.{
  if◌then◌else◌, Bool, true, false, none, some, List, [], ◌∷◌, ◌≡◌, refl, ap, ap₂, sym, ◌∙◌, arith,
  ◌⊎◌, inl, inr, Bool-cases,
}
use cdinit.Environment.{
  Text, text_eq, insert_name, find_var_name, contains_name, erase_name, find_var, erase_var,
  put_var,
}

pub text_eq_refl : (s : Text) → text_eq s s ≡ true
text_eq_refl [] = refl
text_eq_refl (c ∷ s) = ground (arith, text_eq_refl s)

text_eq_equal : (s t : Text) → text_eq s t ≡ true → s ≡ t
text_eq_equal [] [] h = refl
text_eq_equal [] (d ∷ t) h = absurd (cc)
text_eq_equal (c ∷ s) [] h = absurd (cc)
text_eq_equal (c ∷ s) (d ∷ t) h =
    ap₂ (λ a r. a ∷ r) (ground (arith, h)) (text_eq_equal s t (ground (arith, h)))

-- Two texts are the same, or the test tells them apart.
pub text_eq_cases : (s t : Text) → (s ≡ t) ⊎ (text_eq s t ≡ false)
text_eq_cases s t = elim (Bool-cases (text_eq s t)) [
  | inl h ↦ inl (text_eq_equal s t h)
  | inr h ↦ inr h
]

text_eq_other : (m n k : Text) → text_eq m n ≡ false → text_eq m k ≡ true → text_eq n k ≡ false
text_eq_other m n k h g = elim (text_eq_cases n k) [
  | inl p ↦ let q : true ≡ false = sym g ∙ ap (text_eq m) (sym p) ∙ h in absurd (cc)
  | inr f ↦ f
]

-- The test for a name `k`, where an element `m` of a set stands or not, and `rest` is as it was but for `n`.
if_other {ℓ} :
    {A : Type ℓ} (m n k : Text) (x y z r : A)
    → text_eq m n ≡ false
    → r ≡ (if text_eq n k then y else z)
    → (if text_eq m k then x else r) ≡ (if text_eq n k then y else (if text_eq m k then x else z))
if_other m n k x y z r h q = elim (Bool-cases (text_eq m k)) [
  | inl g ↦ rw (g, text_eq_other m n k h g) refl
  | inr g ↦ rw (g, q) refl
]

if_twice {ℓ} :
    {A : Type ℓ} (b : Bool) (x y z : A)
    → (if b then x else (if b then y else z)) ≡ (if b then x else z)
if_twice true x y z = refl
if_twice false x y z = refl

if_same {ℓ} : {A : Type ℓ} (b : Bool) (x : A) → x ≡ (if b then x else x)
if_same true x = refl
if_same false x = refl

module _ (n k : Text) where
  pub contains_name-insert_name :
      (ns : List Text)
      → contains_name (insert_name ns n) k ≡ (if text_eq n k then true else contains_name ns k)
  unfolding contains_name
  contains_name-insert_name ns = elim (Bool-cases (contains_name ns n)) [
    | inl h ↦
        rw h (elim (text_eq_cases n k) [ inl p ↦ rw (sym p, text_eq_refl n) h | inr g ↦ rw g refl ])
    | inr h ↦ rw h refl
  ]

  pub contains_name-erase_name :
      (ns : List Text)
      → contains_name (erase_name ns n) k ≡ (if text_eq n k then false else contains_name ns k)
  unfolding contains_name erase_name
  contains_name-erase_name [] = if_same (text_eq n k) false
  contains_name-erase_name (m ∷ ms) = elim (text_eq_cases m n) [
    | inl p ↦
        rw (p, text_eq_refl n)
          (contains_name-erase_name ms
            ∙ sym (if_twice (text_eq n k) false true (contains_name ms k)))
    | inr h ↦ rw h (
        if_other m n k true false (contains_name ms k) (contains_name (erase_name ms n) k) h
          (contains_name-erase_name ms))
  ]

  pub find_var-erase_var :
      (vs : List Text) → find_var (erase_var vs n) k ≡ (if text_eq n k then none else find_var vs k)
  unfolding find_var erase_var
  find_var-erase_var [] = if_same (text_eq n k) none
  find_var-erase_var (v ∷ vs) = elim (text_eq_cases (find_var_name v) n) [
    | inl p ↦
        rw (p, text_eq_refl n)
          (find_var-erase_var vs ∙ sym (if_twice (text_eq n k) none (some v) (find_var vs k)))
    | inr h ↦ rw h (
        if_other (find_var_name v) n k (some v) none (find_var vs k) (find_var (erase_var vs n) k) h
          (find_var-erase_var vs))
  ]

pub find_var-put_var :
    (vs : List Text) (v k : Text)
    → find_var (put_var vs v) k ≡ (if text_eq (find_var_name v) k then some v else find_var vs k)
unfolding find_var put_var
find_var-put_var [] v k = refl
find_var-put_var (w ∷ ws) v k = elim (text_eq_cases (find_var_name w) (find_var_name v)) [
  | inl p ↦
      rw (p, text_eq_refl (find_var_name v))
        (sym (if_twice (text_eq (find_var_name v) k) (some v) (some w) (find_var ws k)))
  | inr h ↦ rw h (
      if_other (find_var_name w) (find_var_name v) k (some w) (some v) (find_var ws k)
        (find_var (put_var ws v) k) h (find_var-put_var ws v k))
]
