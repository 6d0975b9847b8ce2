-- ===== src/Utilities/Tests.antt =====
-- Decimal numbers and paths of cdinit/dinit/src/includes/dinit-util.h.
use mathlib.Core.List.{reverse}
use cdinit.Base.{◌+◌, ◌^◌, ◌≤◌, suc, [], ◌∷◌, length, ◌≡◌, refl, arith}
use cdinit.Utilities.{Text}
use cdinit.Utilities.Digits.{negsuc, swap_digits, to_dec_digits, type_max_num_digits}
use cdinit.Utilities.Digits.Swap.{swap_digits-reverse}
use cdinit.Utilities.Digits.Value.{signed_number, signed_number-to_dec_digits}
use cdinit.Utilities.Digits.Size.{to_dec_digits_length}
use cdinit.Utilities.Paths.{combine_paths, parent_path, base_name}
use cdinit.Utilities.Paths.Laws.{parent_path-combine_paths, named, entry}

-- The least number of 32 bits.
least :
    to_dec_digits 32 (negsuc 2147483647) ≡ 45 ∷ 50 ∷ 49 ∷ 52 ∷ 55 ∷ 52 ∷ 56 ∷ 51 ∷ 54 ∷ 52 ∷ 56 ∷ []
unfolding to_dec_digits
least = refl

signed_number-to_dec_digits_example : signed_number (to_dec_digits 32 (negsuc 127)) ≡ negsuc 127
signed_number-to_dec_digits_example = signed_number-to_dec_digits 31 (negsuc 127) (omega arith)

to_dec_digits_length_example :
    length (to_dec_digits 8 (negsuc 127)) + 1 ≤ type_max_num_digits (suc (2 ^ 7)) (2 ^ 7) 0 + 1 + 1
to_dec_digits_length_example = to_dec_digits_length 7 (negsuc 127) (omega arith)

swap_digits-reverse_example : swap_digits (49 ∷ 50 ∷ 51 ∷ []) ≡ reverse (49 ∷ 50 ∷ 51 ∷ [])
swap_digits-reverse_example = swap_digits-reverse (49 ∷ 50 ∷ 51 ∷ [])

-- `/a/b` and `c`.
abbrev directory : Text
directory = 47 ∷ 97 ∷ 47 ∷ 98 ∷ []

parent_path-combine_paths_example :
    (parent_path (combine_paths directory (99 ∷ [])) ≡ directory)
    × (base_name (combine_paths directory (99 ∷ [])) ≡ 99 ∷ [])
parent_path-combine_paths_example =
    parent_path-combine_paths directory (99 ∷ []) (named refl) (entry (refl, tt))
