-- ===== src/Utilities/Digits.antt =====
-- `to_dec_digits` and `type_max_num_digits` of cdinit/dinit/src/includes/dinit-util.h.
pub mod Swap
pub mod Value
pub mod Size
use cdinit.Base.{
  ℕ, zero, suc, ◌+◌, ◌-◌, ◌*◌, ◌/◌, ◌%◌, ◌^◌, ◌==◌, ltb, if◌then◌else◌, Bool, true, false, List, [],
  ◌∷◌, length, get_or,
}
use cdinit.Utilities.{Text}

-- A number of a signed type, `negsuc n` for `-(n + 1)`.
pub data ℤ : Type 0 where
  pos negsuc : ℕ → ℤ

-- The loop over the digits, the last one first.
unfoldable pub digits_reversed : ℕ → ℕ → Text
digits_reversed zero uval = []
digits_reversed (suc n) uval =
    let rest = digits_reversed n (uval / 10) in
    (48 + uval % 10) ∷ (if uval / 10 == 0 then [] else rest)

abbrev pub set_at : Text → ℕ → ℕ → Text
set_at [] i c = []
set_at (x ∷ xs) zero c = c ∷ xs
set_at (x ∷ xs) (suc i) c = x ∷ set_at xs i c

abbrev pub swap : Text → ℕ → ℕ → Text
swap buf i j = set_at (set_at buf i (get_or buf j 0)) j (get_or buf i 0)

-- `while (first_digit < last_pos)`
unfoldable pub swap_loop : ℕ → Text → ℕ → ℕ → Text
swap_loop zero buf first_digit last_pos = buf
swap_loop (suc n) buf first_digit last_pos =
    let rest = swap_loop n (swap buf first_digit last_pos) (suc first_digit) (last_pos - 1) in
    if ltb first_digit last_pos then rest else buf

unfoldable pub swap_digits : Text → Text
unfolding swap_loop
swap_digits buf = swap_loop (length buf) buf 0 (length buf - 1)

unfoldable pub unsigned_digits : ℕ → Text
unfolding digits_reversed swap_digits
unsigned_digits uval = if uval == 0 then 48 ∷ [] else swap_digits (digits_reversed (suc uval) uval)

-- `-(unsigned_t)val` in `w` bits, for the negative value `-(n + 1)`.
abbrev pub negated : ℕ → ℕ → ℕ
negated w n = (2 ^ w - (2 ^ w - suc n) % 2 ^ w) % 2 ^ w

-- The text up to the nul character, for a signed type of `w` bits.
unfoldable pub to_dec_digits : ℕ → ℤ → Text
unfolding unsigned_digits
to_dec_digits w (pos n) = unsigned_digits n
to_dec_digits w (negsuc n) = 45 ∷ unsigned_digits (negated w n)

-- `type_max_num_digits(num, pow)`
unfoldable pub type_max_num_digits : ℕ → ℕ → ℕ → ℕ
type_max_num_digits zero num pow = pow
type_max_num_digits (suc n) num pow =
    let rest = type_max_num_digits n (num / 10) (suc pow) in if num == 0 then pow else rest
