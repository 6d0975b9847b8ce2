-- ===== src/Settings/Numbers/Time.antt =====
-- `parse_timespec` of cdinit/dinit/src/includes/load-service.h.
use cdinit.Base.{
  ℕ, zero, suc, ◌+◌, ◌-◌, ◌*◌, ◌/◌, ◌%◌, ◌^◌, ◌≤◌, ◌<◌, ◌==◌, leb, if◌then◌else◌, false, not, ◌||◌,
  [], ◌∷◌, ◌++◌, arith, ◌≡◌, refl, ap, ◌∙◌,
}
use native.Mathlib.Nat.{
  mul-le-mul_right, div-add-mod', mod-lt, div-lt_iff_lt-mul, pow-succ', one-le-pow,
}
use cdinit.Settings.{Text, Error, Result, ok, err, bad_value, too_large}
use cdinit.Settings.Chars.{is_digit}
use cdinit.Settings.Value.Steps.{Holds, returns, fails, if-Holds, bind-Holds}
use cdinit.Settings.Numbers.{max_secs, read_secs, read_nsecs, parse_timespec}
use cdinit.Utilities.Digits.{unsigned_digits}
use cdinit.Utilities.Digits.Value.{
  number, AreDigits, unsigned_digits-AreDigits, unsigned_digits-number,
}

abbrev Any : Error → Type 0
Any e = Unit {0}

digit_le : (c : ℕ) → not (is_digit c) ≡ false → (48 ≤ c) × (c ≤ 57)
digit_le c h = (ground arith, ground arith)

secs_bound :
    (n : ℕ) (i : Text) → n < 2 ^ 63 → Holds (λ (p : ℕ × Text). p.0 < 2 ^ 63) Any (read_secs n i)
unfolding read_secs
secs_bound n [] h = returns h
secs_bound n (c ∷ i) h =
    let rest = read_secs (n * 10 + (c - 48)) i in
    let sized : Result (ℕ × Text) = (if leb max_secs n then err too_large else rest) in
    if-Holds (c == 46 || c == 44) (ok (n, i)) (if not (is_digit c) then err bad_value else sized)
      (λ _. returns h)
      (λ _.
        if-Holds (not (is_digit c)) (err bad_value) sized (λ _. fails tt)
          (λ d.
            if-Holds (leb max_secs n) (err too_large) rest (λ _. fails tt)
              (λ e.
                let l : n < max_secs = ground arith in
                secs_bound (n * 10 + (c - 48)) i (omega (arith, digit_le c d)))))

nsecs_bound :
    (n m : ℕ) (i : Text)
    → n < 1000000000
    → n + 10 * m ≤ 1000000000
    → Holds (λ (k : ℕ). k < 1000000000) Any (read_nsecs n m i)
unfolding read_nsecs
nsecs_bound n m [] h k = returns h
nsecs_bound n m (c ∷ i) h k =
    if-Holds (not (is_digit c)) (err bad_value) (read_nsecs (n + (c - 48) * m) (m / 10) i)
      (λ _. fails tt)
      (λ d.
        let l : (c - 48) * m ≤ 9 * m = mul-le-mul_right m (omega (arith, digit_le c d)) in
        nsecs_bound (n + (c - 48) * m) (m / 10) i (omega arith) (omega arith))

-- Whatever text `parse_timespec` reads without an error, its nanoseconds are less than a
-- second, and its seconds are less than 2 ^ 63.
pub parse_timespec_bounds :
    (t : Text)
    → Holds
        (λ (ts : ℕ × ℕ). (ts.0 < 2 ^ 63) × (ts.1 < 1000000000))
        (λ (e : Error). Unit {0})
        (parse_timespec t)
unfolding parse_timespec
parse_timespec_bounds t = bind-Holds _ (secs_bound 0 t (omega arith)) (λ p h.
    bind-Holds _ (nsecs_bound 0 100000000 p.1 (omega arith) (omega arith)) (λ n k. returns (h, k)))

number_le : (n : ℕ) (i : Text) → n ≤ number n i
unfolding number
number_le n [] = omega arith
number_le n (c ∷ i) = omega (arith, number_le (n * 10 + (c - 48)) i)

-- Decimal digits before a point.
secs_digits :
    (n : ℕ) (i rest : Text)
    → AreDigits i
    → number n i < 10 * max_secs
    → read_secs n (i ++ (46 ∷ rest)) ≡ ok (number n i, rest)
unfolding read_secs number
secs_digits n [] rest h l = refl
secs_digits n (c ∷ i) rest h l =
    let p : (c == 46 || c == 44) ≡ false = ground (arith, h.0) in
    let d : not (is_digit c) ≡ false = ground (arith, h.0, h.1) in
    let q : n < max_secs = omega (arith, number_le (n * 10 + (c - 48)) i) in
    let e : leb max_secs n ≡ false = ground arith in
    rw (p, d, e) (secs_digits (n * 10 + (c - 48)) i rest h.2 l)

-- The digits of `n` below a power of ten, the first of them worth `m`.
abbrev fraction : ℕ → ℕ → ℕ → Text
fraction zero m n = []
fraction (suc k) m n = (48 + n / m) ∷ fraction k (m / 10) (n % m)

nsecs_digit :
    (acc n m : ℕ) (i : Text)
    → 0 < m
    → n < 10 * m
    → read_nsecs acc m ((48 + n / m) ∷ i) ≡ read_nsecs (acc + n / m * m) (m / 10) i
unfolding read_nsecs
nsecs_digit acc n m i p h =
    let q : n / m < 10 = (div-lt_iff_lt-mul p).1 (omega arith) in
    let d : not (is_digit (48 + n / m)) ≡ false = ground (arith, q) in
    let e : 48 + n / m - 48 ≡ n / m = omega arith in rw (d, e) refl

nsecs_digits :
    (k acc n m : ℕ)
    → m ≡ 10 ^ k
    → n < 10 * m
    → read_nsecs acc m (fraction (suc k) m n) ≡ ok (acc + n)
unfolding read_nsecs
nsecs_digits zero acc n m e h =
    nsecs_digit acc n m [] (omega arith) h
    ∙ ap (λ x. ok x) {x = acc + n / m * m} {y = acc + n}
        (omega (arith, div-add-mod' n m, mod-lt n {m = m} (omega arith)))
nsecs_digits (suc k) acc n m e h =
    let t : m ≡ 10 * 10 ^ k = e ∙ pow-succ' 10 k in
    let p : 0 < m = omega (arith, t, one-le-pow k 10 (omega arith)) in
    nsecs_digit acc n m (fraction (suc k) (m / 10) (n % m)) p h
    ∙ nsecs_digits k (acc + n / m * m) (n % m) (m / 10) (omega (arith, t))
        (omega (arith, t, mod-lt n {m = m} p))
    ∙ ap (λ x. ok x) {x = acc + n / m * m + n % m} {y = acc + n} (omega (arith, div-add-mod' n m))

-- A time in decimal: the seconds as `to_dec_digits` writes them, a point and nine digits.
abbrev pub time_text : ℕ → ℕ → Text
time_text secs nsecs = unsigned_digits secs ++ (46 ∷ fraction 9 100000000 nsecs)

-- A time of less than ten times `max_secs` seconds and less than a second of nanoseconds,
-- written as the digits of `to_dec_digits`, a point and nine digits, is read back by
-- `parse_timespec`.
pub parse_timespec-time_text :
    (secs nsecs : ℕ)
    → secs < 10 * max_secs
    → nsecs < 1000000000
    → parse_timespec (time_text secs nsecs) ≡ ok (secs, nsecs)
unfolding parse_timespec
parse_timespec-time_text secs nsecs h k =
    let n : number 0 (unsigned_digits secs) ≡ secs = unsigned_digits-number secs in
    let e : read_secs 0 (time_text secs nsecs) ≡ ok (secs, fraction 9 100000000 nsecs) =
      secs_digits 0 (unsigned_digits secs) (fraction 9 100000000 nsecs)
        (unsigned_digits-AreDigits secs) (omega (arith, n))
      ∙ ap (λ x. ok (x, fraction 9 100000000 nsecs)) n in
    rw (e, nsecs_digits 8 0 nsecs 100000000 refl (omega arith))
      (ap (λ x. ok (secs, x)) {x = 0 + nsecs} {y = nsecs} (omega arith))
