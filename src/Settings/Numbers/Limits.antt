-- ===== src/Settings/Numbers/Limits.antt =====
-- `parse_unum_param`, `find_rlimits` and `parse_rlimit` of
-- cdinit/dinit/src/includes/load-service.h.
use cdinit.Base.{
  if_case, ℕ, suc, ◌^◌, ◌≤◌, ◌<◌, ◌==◌, ltb, leb, if◌then◌else◌, Bool, true, false, not, ◌||◌, ◌&&◌,
  List, [], ◌∷◌, ◌++◌, length, length-append, append-nil, arith, ◌≡◌, ◌⊎◌, refl, ap, sym, ◌∙◌, inl,
  inr, get_or,
}
use cdinit.Settings.Chars.{starts_number}
use cdinit.Settings.{Text, ok, err, ◌>>=◌, bad_value}
use cdinit.Settings.Numbers.{
  Converted, converted, check_param, parse_unum_param, Rlimits, find_rlimits, Strtoull, infinity,
  read_limit, read_soft, read_hard, after_soft, parse_rlimit,
}
use cdinit.Utilities.Digits.{unsigned_digits}
use cdinit.Utilities.Digits.Size.{unsigned_digits_nonempty}
use cdinit.Utilities.Digits.Value.{AreDigits, unsigned_digits-AreDigits}

abbrev no_limits : Rlimits
no_limits = record {
  resource_id = 0;
  soft_set = false;
  hard_set = false;
  rlim_cur = 0;
  rlim_max = 0;
}

abbrev IsFound : ℕ → ℕ × List Rlimits → Type 0
IsFound r q = ((get_or q.1 q.0 no_limits).resource_id ≡ r) × (find_rlimits q.1 r ≡ q)

same_resource : (r : ℕ) → (r == r) ≡ true
same_resource r = ground arith

-- The limits that are found are of the resource, and the same ones are found again, where nothing is
-- added any more.
pub find_rlimits_again :
    (ls : List Rlimits) (r : ℕ)
    → ((get_or (find_rlimits ls r).1 (find_rlimits ls r).0 no_limits).resource_id ≡ r)
      × (find_rlimits (find_rlimits ls r).1 r ≡ find_rlimits ls r)
unfolding find_rlimits
find_rlimits_again [] r = (refl, rw (same_resource r) refl)
find_rlimits_again (l ∷ ls) r =
    if_case (l.resource_id == r) (IsFound r) (0, l ∷ ls)
      (suc (find_rlimits ls r).0, l ∷ (find_rlimits ls r).1) (λ e. (ground arith, rw e refl))
      (λ e. (
        (find_rlimits_again ls r).0,
        rw e (ap (λ (q : ℕ × List Rlimits). (suc q.0, l ∷ q.1)) (find_rlimits_again ls r).1),
      ))

-- The decimal digits of `strtoull`, as the standard documents them.
abbrev pub ReadsDigits : Strtoull → Type 0
ReadsDigits strtoull =
    (n : ℕ) (i : Text)
    → n < 2 ^ 64
    → (i ≡ []) ⊎ ((j : Text) × (i ≡ 58 ∷ j))
    → strtoull (unsigned_digits n ++ i) ≡ (n, i, false)

-- A limit in decimal, or `-` for none.
pub data Limit : Type 0 where
  unlimited : Limit
  limited : ℕ → Limit

abbrev limit_text : Limit → Text
limit_text unlimited = 45 ∷ []
limit_text (limited n) = unsigned_digits n

abbrev limit_value : Limit → ℕ
limit_value unlimited = infinity
limit_value (limited n) = n

abbrev pub IsRepresented : Limit → Type 0
IsRepresented unlimited = Unit {0}
IsRepresented (limited n) = n < 2 ^ 64

abbrev IsClear : Text → Type 0
IsClear i = (i ≡ []) ⊎ ((j : Text) × (i ≡ 58 ∷ j))

module _ (strtoull : Strtoull) where
  digits_limit :
      (d rest : Text) (n : ℕ)
      → 1 ≤ length d
      → n < 2 ^ 64
      → strtoull (d ++ rest) ≡ (n, rest, false)
      → read_limit strtoull (d ++ rest) ≡ ok (n, rest)
  unfolding read_limit
  digits_limit d rest n p h e =
      let a : ltb infinity n ≡ false = ground (arith, h) in
      let b : (length rest == length (d ++ rest)) ≡ false =
        ground (arith, p, length-append d rest) in
      rw (e, a, b) refl

  digits_soft :
      (d rest : Text)
      → AreDigits d
      → 1 ≤ length d
      → read_soft strtoull (d ++ rest) ≡ read_limit strtoull (d ++ rest)
  unfolding read_soft
  digits_soft [] rest h p = absurd (omega arith)
  digits_soft (c ∷ i) rest h p = let e : (c == 45) ≡ false = ground (arith, h.0) in rw e refl

  digits_hard :
      (d : Text) (r : Rlimits)
      → AreDigits d
      → 1 ≤ length d
      → read_hard strtoull d r
        ≡ (read_limit strtoull d >>= λ l. ok (record r { hard_set = true; rlim_max = l.0 }))
  unfolding read_hard
  digits_hard [] r h p = absurd (omega arith)
  digits_hard (c ∷ i) r h p = let e : (c == 45) ≡ false = ground (arith, h.0) in rw e refl

  module _ (reads : ReadsDigits strtoull) where
    soft_limit :
        (l : Limit) (rest : Text)
        → IsRepresented l
        → IsClear rest
        → read_soft strtoull (limit_text l ++ rest) ≡ ok (limit_value l, rest)
    unfolding read_soft
    soft_limit unlimited rest h c = refl
    soft_limit (limited n) rest h c =
        digits_soft (unsigned_digits n) rest (unsigned_digits-AreDigits n)
          (unsigned_digits_nonempty n)
        ∙ digits_limit (unsigned_digits n) rest n (unsigned_digits_nonempty n) h (reads n rest h c)

    hard_limit :
        (l : Limit) (r : Rlimits)
        → IsRepresented l
        → read_hard strtoull (limit_text l) r
          ≡ ok (record r { hard_set = true; rlim_max = limit_value l })
    unfolding read_hard
    hard_limit unlimited r h = refl
    hard_limit (limited n) r h =
        let e : read_limit strtoull (unsigned_digits n) ≡ ok (n, []) =
          rw (← append-nil (unsigned_digits n)) (
            digits_limit (unsigned_digits n) [] n (unsigned_digits_nonempty n) h
              (reads n [] h (inl refl))) in
        digits_hard (unsigned_digits n) r (unsigned_digits-AreDigits n) (unsigned_digits_nonempty n)
        ∙ rw e refl

    abbrev cleared : Rlimits → Rlimits
    cleared r = record r { soft_set = false; hard_set = false }

    soft_first :
        (l : Limit) (rest : Text) (r : Rlimits)
        → parse_rlimit strtoull (limit_text l ++ rest) r
          ≡ (read_soft strtoull (limit_text l ++ rest) >>= λ q. after_soft strtoull q (cleared r))
    unfolding parse_rlimit
    soft_first unlimited rest r = refl
    soft_first (limited n) rest r =
        first_digit (unsigned_digits n) (unsigned_digits-AreDigits n) (unsigned_digits_nonempty n)
      where
        first_digit :
            (d : Text)
            → AreDigits d
            → 1 ≤ length d
            → parse_rlimit strtoull (d ++ rest) r
              ≡ (read_soft strtoull (d ++ rest) >>= λ q. after_soft strtoull q (cleared r))
        first_digit [] h p = absurd (omega arith)
        first_digit (c ∷ i) h p = let e : (c == 58) ≡ false = ground (arith, h.0) in rw e refl

    soft_then :
        (l : Limit) (rest : Text) (r : Rlimits)
        → IsRepresented l
        → IsClear rest
        → parse_rlimit strtoull (limit_text l ++ rest) r
          ≡ after_soft strtoull (limit_value l, rest) (cleared r)
    soft_then l rest r h c =
        soft_first l rest r
        ∙ ap (λ m. m >>= λ q. after_soft strtoull q (cleared r)) (soft_limit l rest h c)

-- The forms that the comments of `parse_rlimit` give, and those without a soft limit.
pub data Form : Type 0 where
  soft_and_hard : Limit → Limit → Form
  soft_only soft_as_hard hard_only : Limit → Form
  neither : Form

abbrev pub form_text : Form → Text
form_text (soft_and_hard l h) = limit_text l ++ (58 ∷ limit_text h)
form_text (soft_only l) = limit_text l ++ (58 ∷ [])
form_text (soft_as_hard l) = limit_text l
form_text (hard_only h) = 58 ∷ limit_text h
form_text neither = 58 ∷ []

abbrev pub form_limits : Form → Rlimits → Rlimits
form_limits (soft_and_hard l h) r = record r {
  soft_set = true;
  hard_set = true;
  rlim_cur = limit_value l;
  rlim_max = limit_value h;
}
form_limits (soft_only l) r = record r {
  soft_set = true;
  hard_set = false;
  rlim_cur = limit_value l;
}
form_limits (soft_as_hard l) r = record r {
  soft_set = true;
  hard_set = true;
  rlim_cur = limit_value l;
  rlim_max = limit_value l;
}
form_limits (hard_only h) r = record r {
  soft_set = false;
  hard_set = true;
  rlim_max = limit_value h;
}
form_limits neither r = record r { soft_set = false; hard_set = false }

abbrev pub AreRepresented : Form → Type 0
AreRepresented (soft_and_hard l h) = IsRepresented l × IsRepresented h
AreRepresented (soft_only l) = IsRepresented l
AreRepresented (soft_as_hard l) = IsRepresented l
AreRepresented (hard_only h) = IsRepresented h
AreRepresented neither = Unit {0}

-- If `strtoull` reads the decimal digits of a 64-bit number up to the end or a colon,
-- `parse_rlimit` reads limits below 2 ^ 64, or `-`, written in any of the forms soft:hard,
-- soft:, soft, :hard and `:`, as that form says: a limit that is not given keeps its value
-- and is marked as not set.
pub parse_rlimit-form_text :
    (strtoull : Strtoull)
    → ReadsDigits strtoull
    → (f : Form) (r : Rlimits) → AreRepresented f
    → parse_rlimit strtoull (form_text f) r ≡ ok (form_limits f r)
unfolding parse_rlimit after_soft read_hard
parse_rlimit-form_text s reads (soft_and_hard l h) r k =
    soft_then s reads l (58 ∷ limit_text h) r k.0 (inr (limit_text h, refl))
    ∙ hard_limit s reads h
        (record r { soft_set = true; hard_set = false; rlim_cur = limit_value l }) k.1
parse_rlimit-form_text s reads (soft_only l) r k =
    soft_then s reads l (58 ∷ []) r k (inr ([], refl))
parse_rlimit-form_text s reads (soft_as_hard l) r k =
    ap (λ t. parse_rlimit s t r) (sym (append-nil (limit_text l)))
    ∙ soft_then s reads l [] r k (inl refl)
parse_rlimit-form_text s reads (hard_only h) r k =
    hard_limit s reads h (record r { soft_set = false; hard_set = false }) k
parse_rlimit-form_text s reads neither r k = refl

abbrev pub is_end : Text → Bool
is_end [] = true
is_end (c ∷ i) = false

-- What may stand behind a number: nothing, or, where the number is not 0, what does not begin with a
-- digit. Behind a 0 a letter may begin another number system.
abbrev pub IsBehind : ℕ → Text → Type 0
IsBehind n rest = (rest ≡ []) ⊎ ((1 ≤ n) × (starts_number rest ≡ false))

-- What `stoull` gives for a text that begins with the digits of a number, as the standard documents it.
abbrev pub ReadsNumber : (Text → Converted) → Type 0
ReadsNumber stoull =
    (n : ℕ) (rest : Text)
    → n < 2 ^ 64
    → IsBehind n rest
    → stoull (unsigned_digits n ++ rest) ≡ converted n (length (unsigned_digits n))

whole : (t rest : Text) → (length t == length (t ++ rest)) ≡ is_end rest
whole t [] = ground (arith, length-append t [])
whole t (c ∷ rest) = ground (arith, length-append t (c ∷ rest))

fits :
    (b e : Bool) (v : ℕ)
    → (if not b || not e then err bad_value else ok v) ≡ (if b && e then ok v else err bad_value)
fits true true v = refl
fits true false v = refl
fits false e v = refl

-- If `stoull` reads the decimal digits that a text begins with, of a 64-bit number,
-- `parse_unum_param` returns the number if it is at most the allowed one and nothing follows
-- the digits, and the error for a bad value if it is more or if anything but a digit
-- follows. Behind a number 0 nothing may follow.
pub parse_unum_param-unsigned_digits :
    (stoull : Text → Converted)
    → ReadsNumber stoull
    → (v max : ℕ) (rest : Text) → v < 2 ^ 64
    → IsBehind v rest
    → parse_unum_param stoull (unsigned_digits v ++ rest) max
      ≡ (if leb v max && is_end rest then ok v else err bad_value)
unfolding parse_unum_param check_param
parse_unum_param-unsigned_digits stoull reads v max rest h b =
    rw (reads v rest h b, check_param, whole (unsigned_digits v) rest)
      (fits (leb v max) (is_end rest) v)
