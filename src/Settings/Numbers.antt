-- ===== src/Settings/Numbers.antt =====
-- The reading of numbers in setting values: `parse_timespec`, `parse_unum_param`, `find_rlimits` and
-- `parse_rlimit` of cdinit/dinit/src/includes/load-service.h.
pub mod Time
pub mod Limits
use cdinit.Base.{
  ℕ, zero, suc, ◌+◌, ◌-◌, ◌*◌, ◌/◌, ◌^◌, ◌==◌, ltb, leb, if◌then◌else◌, Bool, true, false, not,
  ◌||◌, ◌&&◌, Option, none, some, List, [], ◌∷◌, length,
}
use cdinit.Settings.{Text, Result, ok, err, ◌>>=◌, bad_value, too_large}
use cdinit.Settings.Chars.{is_digit}

-- `std::numeric_limits<time_t>::max() / 10`
abbrev pub max_secs : ℕ
max_secs = (2 ^ 63 - 1) / 10

-- The digits before the decimal point: the seconds, and the text behind the point.
unfoldable pub read_secs : ℕ → Text → Result (ℕ × Text)
read_secs isec [] = ok (isec, [])
read_secs isec (ch ∷ i) =
    let rest = read_secs (isec * 10 + (ch - 48)) i in
    if ch == 46 || ch == 44
    then ok (isec, i)
    else if not (is_digit ch)
    then err bad_value
    else if leb max_secs isec
    then err too_large
    else rest

unfoldable pub read_nsecs : ℕ → ℕ → Text → Result ℕ
read_nsecs insec insec_m [] = ok insec
read_nsecs insec insec_m (ch ∷ i) =
    let rest = read_nsecs (insec + (ch - 48) * insec_m) (insec_m / 10) i in
    if not (is_digit ch) then err bad_value else rest

-- The seconds and nanoseconds.
unfoldable pub parse_timespec : Text → Result (ℕ × ℕ)
unfolding read_secs read_nsecs
parse_timespec paramval =
    read_secs 0 paramval >>= λ p. read_nsecs 0 100000000 p.1 >>= λ n. ok (p.0, n)

-- What `std::stoull` gives: the number and the characters read, or an exception.
pub data Converted : Type 0 where
  converted : ℕ → ℕ → Converted
  out_of_range invalid_argument : Converted

unfoldable check_param : (ℕ → Bool) → Text → Converted → Result ℕ
check_param allowed param (converted v ind) =
    if not (allowed v) || not (ind == length param) then err bad_value else ok v
check_param allowed param out_of_range = err bad_value
check_param allowed param invalid_argument = err bad_value

-- `parse_unum_param`, where `stoull` is the function of the standard library, at base 0.
unfoldable pub parse_unum_param : (Text → Converted) → Text → ℕ → Result ℕ
unfolding check_param
parse_unum_param stoull param max = check_param (λ v. leb v max) param (stoull param)

-- `service_rlimits`
pub record Rlimits : Type 0 where
  pub resource_id : ℕ
  pub soft_set : Bool
  pub hard_set : Bool
  pub rlim_cur : ℕ
  pub rlim_max : ℕ

-- `find_rlimits`: the position of the limits, and the limits with those that are added.
unfoldable pub find_rlimits : List Rlimits → ℕ → ℕ × List Rlimits
find_rlimits [] resource_id = (
  0,
  record {
    resource_id = resource_id;
    soft_set = false;
    hard_set = false;
    rlim_cur = 0;
    rlim_max = 0;
  }
      ∷ [],
)
find_rlimits (l ∷ ls) resource_id =
    let (k, more) = find_rlimits ls resource_id in
    if l.resource_id == resource_id then (0, l ∷ ls) else (suc k, l ∷ more)

-- What `strtoull` gives, at base 0: the number, the text behind it, and whether `errno` is `ERANGE`.
abbrev pub Strtoull : Type 0
Strtoull = Text → ℕ × Text × Bool

-- `RLIM_INFINITY`, and the largest `rlim_t`.
abbrev pub infinity : ℕ
infinity = 2 ^ 64 - 1

-- A limit at the start of a text that is not `-`.
unfoldable pub read_limit : Strtoull → Text → Result (ℕ × Text)
read_limit strtoull index =
    let (limit, nindex, erange) = strtoull index in
    if erange || ltb infinity limit
    then err too_large
    else if length nindex == length index
    then err bad_value
    else ok (limit, nindex)

-- `-` or a limit: `none` is for no text, where `strtoull` reads nothing.
unfoldable pub read_soft : Strtoull → Text → Result (ℕ × Text)
unfolding read_limit
read_soft strtoull [] = read_limit strtoull []
read_soft strtoull (c ∷ i) = if c == 45 then ok (infinity, i) else read_limit strtoull (c ∷ i)

abbrev hard_infinity : Text → Rlimits → Result Rlimits
hard_infinity [] r = ok (record r { rlim_max = infinity })
hard_infinity (c ∷ i) r = err bad_value

-- Behind the colon.
unfoldable pub read_hard : Strtoull → Text → Rlimits → Result Rlimits
unfolding read_limit
read_hard strtoull [] r = ok r
read_hard strtoull (c ∷ i) r =
    let set = record r { hard_set = true } in
    if c == 45
    then hard_infinity i set
    else (read_limit strtoull (c ∷ i) >>= λ l. ok (record set { rlim_max = l.0 }))

unfoldable pub after_soft : Strtoull → ℕ × Text → Rlimits → Result Rlimits
unfolding read_hard
after_soft strtoull (limit, []) r =
    ok (record r { soft_set = true; rlim_cur = limit; hard_set = true; rlim_max = limit })
after_soft strtoull (limit, c ∷ i) r =
    if c == 58
    then read_hard strtoull i (record r { soft_set = true; rlim_cur = limit })
    else err bad_value

unfoldable pub parse_rlimit : Strtoull → Text → Rlimits → Result Rlimits
unfolding read_soft read_hard after_soft
parse_rlimit strtoull [] r = err bad_value
parse_rlimit strtoull (c ∷ i) r =
    let clear = record r { soft_set = false; hard_set = false } in
    if c == 58
    then read_hard strtoull i clear
    else (read_soft strtoull (c ∷ i) >>= λ l. after_soft strtoull l clear)
