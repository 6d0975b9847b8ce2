-- ===== src/Settings/Tests.antt =====
-- Readings of small texts by the functions of cdinit/dinit/src/includes/load-service.h.
use cdinit.Base.{
  ◌&&◌, ℕ, ◌<◌, ◌^◌, if◌then◌else◌, Bool, true, false, Option, none, some, List, [], ◌∷◌, ◌++◌,
  length, leb, ltb, ◌≡◌, ◌≢◌, ◌⊎◌, inl, inr, refl, arith,
}
use cdinit.Settings.{
  Text, Error, Result, ok, err, ◌>>=◌, past_end, out_of_fuel, bad_value, hashmark,
}
use cdinit.Settings.Chars.{span, is_digit, skip_ws_ln, read_config_name, skip_comment}
use cdinit.Settings.Value.{Operation, assign, plus_assign, Reading, read_setting_value}
use cdinit.Settings.Value.Steps.{Holds, returns}
use cdinit.Settings.Value.Fuel.{read_setting_value_total}
use cdinit.Settings.Value.Safe.{IsClosed, dangling, read_setting_value-IsClosed}
use cdinit.Settings.Value.Parts.{ArePlaced, read_setting_value-ArePlaced}
use cdinit.Settings.Value.RoundTrip.{written, parts_of, read_setting_value-written}
use cdinit.Settings.Input.{InputStack, push_file, getline}
use cdinit.Settings.Lines.{continues, join, read_command}
use cdinit.Settings.Lines.Backslash.{continues-dangling}
use cdinit.Settings.Lines.Process.{process_service_file}
use cdinit.Settings.Lines.Safe.{process_service_file-InBounds}
use cdinit.Settings.Lines.Ends.{process_service_file_total}
use cdinit.Settings.Numbers.{
  parse_timespec, parse_rlimit, parse_unum_param, Rlimits, Strtoull, Converted, converted, infinity,
}
use cdinit.Settings.Numbers.Time.{time_text, parse_timespec_bounds, parse_timespec-time_text}
use cdinit.Settings.Numbers.Limits.{
  ReadsDigits, ReadsNumber, IsBehind, is_end, soft_and_hard, limited, unlimited, form_text,
  form_limits, parse_rlimit-form_text, parse_unum_param-unsigned_digits,
}
use cdinit.Utilities.Digits.{unsigned_digits}
use cdinit.Utilities.Digits.Value.{
  number, AreDigits, unsigned_digits-AreDigits, unsigned_digits-number,
}

-- `a"` and `\ b`.
abbrev first_part : Text
first_part = 97 ∷ 34 ∷ []

abbrev second_part : Text
second_part = 92 ∷ 32 ∷ 98 ∷ []

read_setting_value-written_example :
    (read_setting_value [] assign 32 1 (some []) (written (first_part ∷ second_part ∷ [] ∷ []))
      >>= λ r. ok (parts_of r))
    ≡ ok (first_part ∷ second_part ∷ [] ∷ [])
read_setting_value-written_example =
    read_setting_value-written first_part (second_part ∷ [] ∷ []) [] 32 1 []

-- `a \# #`
abbrev hashes : Text
hashes = 97 ∷ 32 ∷ 92 ∷ 35 ∷ 32 ∷ 35 ∷ []

hashes-IsClosed : IsClosed hashes
unfolding dangling
hashes-IsClosed = refl

read_setting_value-IsClosed_example : read_setting_value [] assign 32 1 none hashes ≢ err past_end
read_setting_value-IsClosed_example =
    read_setting_value-IsClosed [] assign 32 1 none hashes hashes-IsClosed

read_setting_value_total_example : read_setting_value [] assign 32 1 none hashes ≢ err out_of_fuel
read_setting_value_total_example = read_setting_value_total [] assign 32 1 none hashes

read_setting_value-ArePlaced_example :
    Holds
      (λ (r : Reading). ArePlaced r.part_positions (length r.setting_val))
      (λ e. Unit {0})
      (read_setting_value (97 ∷ []) plus_assign 32 1 (some ((0, 1) ∷ [])) hashes)
read_setting_value-ArePlaced_example =
    read_setting_value-ArePlaced (97 ∷ []) plus_assign 32 1 (some ((0, 1) ∷ [])) hashes
      (omega arith, omega arith, omega arith)

continues-dangling_example :
    continues (97 ∷ 92 ∷ 92 ∷ 92 ∷ []) ≡ dangling false (97 ∷ 92 ∷ 92 ∷ 92 ∷ [])
continues-dangling_example = continues-dangling (97 ∷ 92 ∷ 92 ∷ 92 ∷ [])

-- A hash mark right behind a value, and a comment that takes the place of the value.
hash_in_value : read_setting_value [] assign 32 1 none (97 ∷ 35 ∷ []) ≡ err hashmark
unfolding read_setting_value skip_ws_ln
hash_in_value = refl

comment_as_value : read_setting_value [] assign 32 1 none (32 ∷ 35 ∷ 32 ∷ 99 ∷ []) ≡ err hashmark
unfolding read_setting_value skip_ws_ln
comment_as_value = refl

-- `n = a\`, ` b` and `n+="c"`.
abbrev two_settings : InputStack
two_settings =
    push_file []
      ((110 ∷ 32 ∷ 61 ∷ 32 ∷ 97 ∷ 92 ∷ [])
        ∷ (32 ∷ 98 ∷ [])
        ∷ (110 ∷ 43 ∷ 61 ∷ 34 ∷ 99 ∷ 34 ∷ [])
        ∷ [])
      []

-- Every setting is read into one value.
abbrev read_line : Text → Operation → ℕ → Text → Text → Result Text
read_line name op n i val = read_setting_value val op 32 n none i >>= λ r. ok r.setting_val

abbrev no_meta : Text → Text → Text
no_meta i val = val

abbrev no_include : Bool → ℕ → Text → Result (Option (Text × List Text))
no_include opt n i = ok none

value_lem : (m : Result Reading) (x : Error) → m ≢ err x → (m >>= λ r. ok r.setting_val) ≢ err x
value_lem (ok r) x h e = cc
value_lem (err y) x h e = h (cc)

read_two_settings :
    process_service_file read_line no_meta no_include 9 two_settings []
    ≡ ok (97 ∷ 32 ∷ 98 ∷ 32 ∷ 99 ∷ [])
unfolding process_service_file read_setting_value getline join read_command skip_ws_ln
    read_config_name skip_comment
read_two_settings = refl

process_service_file-InBounds_example :
    process_service_file read_line no_meta no_include 9 two_settings [] ≢ err past_end
process_service_file-InBounds_example =
    process_service_file-InBounds read_line no_meta no_include
      (λ name op n i s h.
        value_lem (read_setting_value s op 32 n none i) past_end
          (read_setting_value-IsClosed s op 32 n none i h))
      (λ b n i e. cc) 9 two_settings []

process_service_file_total_example :
    process_service_file read_line no_meta no_include 4 two_settings [] ≢ err out_of_fuel
process_service_file_total_example =
    process_service_file_total read_line no_meta no_include
      (λ name op n i s.
        value_lem (read_setting_value s op 32 n none i) out_of_fuel
          (read_setting_value_total s op 32 n none i))
      (λ b n i. returns refl) 4 two_settings [] (omega arith)

-- `12.25`
parse_timespec_bounds_example :
    Holds
      (λ (ts : ℕ × ℕ). (ts.0 < 2 ^ 63) × (ts.1 < 1000000000))
      (λ e. Unit {0})
      (parse_timespec (49 ∷ 50 ∷ 46 ∷ 50 ∷ 53 ∷ []))
parse_timespec_bounds_example = parse_timespec_bounds (49 ∷ 50 ∷ 46 ∷ 50 ∷ 53 ∷ [])

parse_timespec-time_text_example : parse_timespec (time_text 12 250000000) ≡ ok (12, 250000000)
parse_timespec-time_text_example = parse_timespec-time_text 12 250000000 (omega arith) (omega arith)

-- `strtoull` and `stoull` on decimal digits.
abbrev strtoull : Strtoull
strtoull t =
    (number 0 (span is_digit t).0, (span is_digit t).1, ltb infinity (number 0 (span is_digit t).0))

abbrev stoull : Text → Converted
stoull t = converted (number 0 (span is_digit t).0) (length (span is_digit t).0)

span-digits :
    (d i : Text) → AreDigits d → span is_digit i ≡ ([], i) → span is_digit (d ++ i) ≡ (d, i)
unfolding span
span-digits [] i h e = e
span-digits (c ∷ d) i h e =
    let p : is_digit c ≡ true = ground (arith, h.0, h.1) in rw (p, span-digits d i h.2 e) refl

no_digit : (i : Text) → (i ≡ []) ⊎ ((j : Text) × (i ≡ 58 ∷ j)) → span is_digit i ≡ ([], i)
unfolding span
no_digit i (inl e) = rw (e, span) refl
no_digit i (inr e) = rw (e.1, span) refl

strtoull-ReadsDigits : ReadsDigits strtoull
strtoull-ReadsDigits n i h c =
    let b : ltb infinity n ≡ false = ground (arith, h) in
    rw (
      span-digits (unsigned_digits n) i (unsigned_digits-AreDigits n) (no_digit i c),
      unsigned_digits-number n,
      b,
    )

ends_number : (n : ℕ) (i : Text) → IsBehind n i → span is_digit i ≡ ([], i)
unfolding span
ends_number n i (inl e) = rw (e, span) refl
ends_number n [] (inr e) = refl
ends_number n (c ∷ i) (inr e) = rw (e.1, span) refl

stoull-ReadsNumber : ReadsNumber stoull
stoull-ReadsNumber n i h b = rw (
  span-digits (unsigned_digits n) i (unsigned_digits-AreDigits n) (ends_number n i b),
  unsigned_digits-number n,
)

abbrev unset : Rlimits
unset = record { resource_id = 7; soft_set = false; hard_set = false; rlim_cur = 0; rlim_max = 0 }

parse_rlimit-form_text_example :
    parse_rlimit strtoull (form_text (soft_and_hard (limited 4) unlimited)) unset
    ≡ ok (form_limits (soft_and_hard (limited 4) unlimited) unset)
parse_rlimit-form_text_example =
    parse_rlimit-form_text strtoull strtoull-ReadsDigits (soft_and_hard (limited 4) unlimited) unset
      (omega arith, tt)

-- `300x`
parse_unum_param-unsigned_digits_example :
    parse_unum_param stoull (unsigned_digits 300 ++ (120 ∷ [])) 500
    ≡ (if leb 300 500 && is_end (120 ∷ []) then ok 300 else err bad_value)
parse_unum_param-unsigned_digits_example =
    parse_unum_param-unsigned_digits stoull stoull-ReadsNumber 300 500 (120 ∷ []) (omega arith)
      (inr (omega arith, refl))

-- `4:5x`: what follows the hard limit is left out.
trailing_text :
    parse_rlimit strtoull (52 ∷ 58 ∷ 53 ∷ 120 ∷ []) unset
    ≡ ok (record unset { soft_set = true; hard_set = true; rlim_cur = 4; rlim_max = 5 })
unfolding parse_rlimit span number
trailing_text = refl
