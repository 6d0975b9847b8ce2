-- ===== src/Utilities/Digits/Size.antt =====
-- The size of the buffers for decimal numbers in cdinit/dinit/src/includes/dinit-util.h.
use cdinit.Base.{if_case, ℕ, zero, suc, ◌+◌, ◌/◌, ◌^◌, ◌≤◌, ◌<◌, ◌==◌, [], ◌∷◌, length, arith, ap}
use cdinit.Utilities.{Text}
use cdinit.Utilities.Digits.{
  ℤ, pos, negsuc, digits_reversed, swap_digits, unsigned_digits, to_dec_digits, type_max_num_digits,
}
use cdinit.Utilities.Digits.Swap.{swap_digits-reverse, length-reverse}
use cdinit.Utilities.Digits.Value.{IsInRange, negated-suc}

counted : (n num pow : ℕ) → pow ≤ type_max_num_digits n num pow
unfolding type_max_num_digits
counted zero num pow = omega arith
counted (suc n) num pow =
    if_case (num == 0) (λ k. pow ≤ k) pow (type_max_num_digits n (num / 10) (suc pow))
      (λ _. omega arith) (λ _. omega (arith, counted n (num / 10) (suc pow)))

-- One digit at least.
some_digit : (n num pow : ℕ) → 0 < num → num < n → suc pow ≤ type_max_num_digits n num pow
unfolding type_max_num_digits
some_digit zero num pow h l = absurd (omega arith)
some_digit (suc n) num pow h l =
    if_case (num == 0) (λ k. suc pow ≤ k) pow (type_max_num_digits n (num / 10) (suc pow))
      (λ e. ground arith) (λ _. counted n (num / 10) (suc pow))

digits_length :
    (m n u num pow : ℕ)
    → u ≤ num
    → 0 < num
    → num < n
    → pow + length (digits_reversed m u) ≤ type_max_num_digits n num pow
unfolding digits_reversed type_max_num_digits
digits_length zero n u num pow h p l = omega (arith, counted n num pow)
digits_length (suc m) zero u num pow h p l = absurd (omega arith)
digits_length (suc m) (suc n) u num pow h p l =
    if_case (num == 0) (λ k. pow + length (digits_reversed (suc m) u) ≤ k) pow
      (type_max_num_digits n (num / 10) (suc pow)) (λ e. ground arith)
      (λ _.
        if_case (u / 10 == 0)
          (λ d. pow + suc (length d) ≤ type_max_num_digits n (num / 10) (suc pow)) []
          (digits_reversed m (u / 10)) (λ _. omega (arith, counted n (num / 10) (suc pow)))
          (λ e.
            let q : u / 10 ≤ num / 10 = omega arith in
            let r : 0 < u / 10 = ground arith in
            omega (
              arith,
              digits_length m n (u / 10) (num / 10) (suc pow) q (omega arith) (omega arith),
            )))

unsigned_digits_length :
    (u num : ℕ)
    → u ≤ num
    → 0 < num
    → length (unsigned_digits u) ≤ type_max_num_digits (suc num) num 0
unfolding unsigned_digits
unsigned_digits_length u num h p =
    if_case (u == 0) (λ d. length d ≤ type_max_num_digits (suc num) num 0) (48 ∷ [])
      (swap_digits (digits_reversed (suc u) u)) (λ _. some_digit (suc num) num 0 p (omega arith))
      (λ _. omega (
        arith,
        ap (λ (d : Text). length d) (swap_digits-reverse (digits_reversed (suc u) u)),
        length-reverse (digits_reversed (suc u) u),
        digits_length (suc u) (suc num) u num 0 h p (omega arith),
      ))

-- The text that `to_dec_digits` writes for a number in the range of a signed type of one bit
-- or more, with its sign and the nul character, fits the buffer of `dec_digits_buf`, whose
-- size comes from `type_max_num_digits`.
pub to_dec_digits_length :
    (w : ℕ) (v : ℤ)
    → IsInRange w v
    → length (to_dec_digits (suc w) v) + 1 ≤ type_max_num_digits (suc (2 ^ w)) (2 ^ w) 0 + 1 + 1
unfolding to_dec_digits
to_dec_digits_length w (pos n) h =
    omega (arith, unsigned_digits_length n (2 ^ w) (omega arith) (omega arith))
to_dec_digits_length w (negsuc n) h = omega (
  arith,
  ap (λ k. length (unsigned_digits k)) (negated-suc w n h),
  unsigned_digits_length (suc n) (2 ^ w) (omega arith) (omega arith),
)

pub unsigned_digits_nonempty : (u : ℕ) → 1 ≤ length (unsigned_digits u)
unfolding unsigned_digits digits_reversed
unsigned_digits_nonempty u =
    if_case (u == 0) (λ d. 1 ≤ length d) (48 ∷ []) (swap_digits (digits_reversed (suc u) u))
      (λ _. omega arith)
      (λ _. omega (
        arith,
        ap (λ (d : Text). length d) (swap_digits-reverse (digits_reversed (suc u) u)),
        length-reverse (digits_reversed (suc u) u),
      ))
