-- ===== src/Utilities/Digits/Value.antt =====
-- The value of the digits that `to_dec_digits` of cdinit/dinit/src/includes/dinit-util.h writes.
use cdinit.Base.{
  if_case, ℕ, zero, suc, ◌+◌, ◌-◌, ◌*◌, ◌/◌, ◌%◌, ◌^◌, ◌≤◌, ◌<◌, ◌==◌, if◌then◌else◌, Bool, true,
  false, [], ◌∷◌, ◌++◌, arith, ◌≡◌, refl, ap, ◌∙◌,
}
use mathlib.Core.List.{reverse, reverse-cons}
use cdinit.Utilities.{Text}
use native.Mathlib.Nat.{mod-eq_of_lt, pow-succ'}
use cdinit.Utilities.Digits.{
  ℤ, pos, negsuc, digits_reversed, swap_digits, unsigned_digits, to_dec_digits, negated,
}
use cdinit.Utilities.Digits.Swap.{swap_digits-reverse}

-- The number that decimal digits stand for, behind `acc`.
unfoldable pub number : ℕ → Text → ℕ
number acc [] = acc
number acc (c ∷ i) = number (acc * 10 + (c - 48)) i

reversed_number : Text → ℕ
reversed_number [] = 0
reversed_number (c ∷ r) = (c - 48) + 10 * reversed_number r

number-snoc :
    (acc : ℕ) (i : Text) (c : ℕ) → number acc (i ++ (c ∷ [])) ≡ number acc i * 10 + (c - 48)
unfolding number
number-snoc acc [] c = refl
number-snoc acc (d ∷ i) c = number-snoc (acc * 10 + (d - 48)) i c

number-reverse : (r : Text) → number 0 (reverse r) ≡ reversed_number r
unfolding number reversed_number
number-reverse [] = refl
number-reverse (c ∷ r) =
    rw (reverse-cons c r, number-snoc 0 (reverse r) c) (omega (arith, number-reverse r))

last_digit :
    (b : Bool) (u : ℕ) (rest : Text)
    → (b ≡ true → u / 10 ≡ 0)
    → (b ≡ false → reversed_number rest ≡ u / 10)
    → reversed_number ((48 + u % 10) ∷ (if b then [] else rest)) ≡ u
unfolding reversed_number
last_digit true u rest h k = omega (arith, h refl)
last_digit false u rest h k = omega (arith, k refl)

digits_reversed-number : (n u : ℕ) → u < n → reversed_number (digits_reversed n u) ≡ u
unfolding digits_reversed
digits_reversed-number zero u h = absurd (omega arith)
digits_reversed-number (suc n) u h =
    last_digit (u / 10 == 0) u (digits_reversed n (u / 10)) (λ e. ground arith)
      (λ e. digits_reversed-number n (u / 10) (ground arith))

pub unsigned_digits-number : (u : ℕ) → number 0 (unsigned_digits u) ≡ u
unfolding unsigned_digits number
unsigned_digits-number u =
    if_case (u == 0) (λ d. number 0 d ≡ u) (48 ∷ []) (swap_digits (digits_reversed (suc u) u))
      (λ e. ground arith)
      (λ _.
        ap (number 0) (swap_digits-reverse (digits_reversed (suc u) u))
        ∙ number-reverse (digits_reversed (suc u) u)
        ∙ digits_reversed-number (suc u) u (omega arith))

-- The digits are digits.
abbrev pub AreDigits : Text → Type 0
AreDigits [] = Unit {0}
AreDigits (c ∷ i) = (48 ≤ c) × (c ≤ 57) × AreDigits i

digits-append : (i j : Text) → AreDigits i → AreDigits j → AreDigits (i ++ j)
digits-append [] j h k = k
digits-append (c ∷ i) j h k = (h.0, h.1, digits-append i j h.2 k)

digits-reverse : (i : Text) → AreDigits i → AreDigits (reverse i)
digits-reverse [] h = tt
digits-reverse (c ∷ i) h =
    rw (reverse-cons c i) (digits-append (reverse i) (c ∷ []) (digits-reverse i h.2) (h.0, h.1, tt))

digits_reversed-AreDigits : (n u : ℕ) → AreDigits (digits_reversed n u)
unfolding digits_reversed
digits_reversed-AreDigits zero u = tt
digits_reversed-AreDigits (suc n) u = (
  omega arith,
  omega arith,
  if_case (u / 10 == 0) AreDigits [] (digits_reversed n (u / 10)) (λ _. tt)
      (λ _. digits_reversed-AreDigits n (u / 10)),
)

pub unsigned_digits-AreDigits : (u : ℕ) → AreDigits (unsigned_digits u)
unfolding unsigned_digits
unsigned_digits-AreDigits u =
    if_case (u == 0) AreDigits (48 ∷ []) (swap_digits (digits_reversed (suc u) u))
      (λ _. (omega arith, omega arith, tt))
      (λ _.
        rw (swap_digits-reverse (digits_reversed (suc u) u))
          (digits-reverse (digits_reversed (suc u) u) (digits_reversed-AreDigits (suc u) u)))

-- The number that a decimal with its sign stands for.
unfoldable pub signed_number : Text → ℤ
signed_number [] = pos 0
signed_number (c ∷ i) = if c == 45 then negsuc (number 0 i - 1) else pos (number 0 (c ∷ i))

unsigned_number : (i : Text) → AreDigits i → signed_number i ≡ pos (number 0 i)
unfolding signed_number number
unsigned_number [] h = refl
unsigned_number (c ∷ i) h = let e : (c == 45) ≡ false = ground (arith, h.0) in rw e

negated_lem : (m n : ℕ) → suc n < m → (m - (m - suc n) % m) % m ≡ suc n
negated_lem m n h =
    let a : (m - suc n) % m ≡ m - suc n = mod-eq_of_lt (omega arith) in
    let b : m - (m - suc n) ≡ suc n = omega arith in rw (a, b) (mod-eq_of_lt h)

double : (w : ℕ) → 2 ^ suc w ≡ 2 * 2 ^ w
double w = pow-succ' 2 w

pub negated-suc : (w n : ℕ) → n < 2 ^ w → negated (suc w) n ≡ suc n
negated-suc w n h = negated_lem (2 ^ suc w) n (omega (arith, h, double w))

-- The values of a signed type of `suc w` bits.
abbrev pub IsInRange : ℕ → ℤ → Type 0
IsInRange w (pos n) = n < 2 ^ w
IsInRange w (negsuc n) = n < 2 ^ w

-- A number in the range of a signed type of one bit or more, the least one included, is the
-- number that the text written by `to_dec_digits` stands for.
pub signed_number-to_dec_digits :
    (w : ℕ) (v : ℤ) → IsInRange w v → signed_number (to_dec_digits (suc w) v) ≡ v
unfolding to_dec_digits signed_number
signed_number-to_dec_digits w (pos n) h =
    unsigned_number (unsigned_digits n) (unsigned_digits-AreDigits n)
    ∙ ap pos (unsigned_digits-number n)
signed_number-to_dec_digits w (negsuc n) h =
    ap (λ k. negsuc (number 0 (unsigned_digits k) - 1)) (negated-suc w n h)
    ∙ ap (λ k. negsuc (k - 1)) (unsigned_digits-number (suc n))
    ∙ ap negsuc (omega arith)
