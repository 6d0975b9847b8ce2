-- ===== src/Settings/Value/RoundTrip.antt =====
-- How `read_setting_value` of cdinit/dinit/src/includes/load-service.h reads quoted parts.
use cdinit.Base.{
  ℕ, zero, suc, ◌+◌, ◌-◌, ◌≤◌, ◌==◌, Bool, true, false, ◌||◌, some, none, List, [], ◌∷◌, ◌++◌,
  append_assoc, append-nil, ◌≡◌, refl, ap, ap₂, sym, ◌∙◌, length, length-append, take, drop, arith,
}
use cdinit.Settings.{Text, Result, ok, err, ◌>>=◌}
use cdinit.Settings.Chars.{quote_mark, backslash, space}
use cdinit.Settings.Value.{
  assign, Reading, quoted, after_quote, begin_part, end_part, add_position, after_space, add_space,
  step, read_loop, start_reading, read_setting_value,
}
use cdinit.Settings.Chars.{skip_comment, skip_comment_from, skip_ws_ln}

abbrev is_special : ℕ → Bool
is_special c = c == quote_mark || c == backslash

abbrev escape_char : Bool → ℕ → Text → Text
escape_char true c w = backslash ∷ c ∷ w
escape_char false c w = c ∷ w

-- A part in quote marks, with a backslash before each quote mark and backslash in it.
abbrev pub escape : Text → Text
escape [] = []
escape (c ∷ w) = let rest = escape w in escape_char (is_special c) c rest

abbrev pub quote : Text → Text → Text
quote w rest = quote_mark ∷ (escape w ++ (quote_mark ∷ rest))

-- The parts in quote marks with a space between two of them.
abbrev further : List Text → Text
further [] = []
further (w ∷ ws) = let rest = further ws in space ∷ quote w rest

abbrev pub written : List Text → Text
written [] = []
written (w ∷ ws) = quote w (further ws)

-- What the value and the positions of the parts are to be.
abbrev continued : List Text → Text
continued [] = []
continued (w ∷ ws) = let rest = continued ws in space ∷ (w ++ rest)

abbrev spans : ℕ → List Text → List (ℕ × ℕ)
spans a [] = []
spans a (w ∷ ws) = let rest = spans (a + length w + 1) ws in (a, a + length w) ∷ rest

-- `setting_val.substr(first, second - first)` of each pair of positions.
abbrev pub slices : Text → List (ℕ × ℕ) → List Text
slices val [] = []
slices val (p ∷ ps) = take (p.1 - p.0) (drop p.0 val) ∷ slices val ps

abbrev pub parts_of : Reading → List Text
parts_of r = elim r.part_positions [ none ↦ [] | some ps ↦ slices r.setting_val ps ]

escape_char-append :
    (b : Bool) (c : ℕ) (v w : Text) → escape_char b c v ++ w ≡ escape_char b c (v ++ w)
escape_char-append true c v w = refl
escape_char-append false c v w = refl

elim_plain {ℓ} :
    {A : Type ℓ} (b d : Bool) (x y z : A)
    → (b || d) ≡ false
    → (elim b [ true ↦ x | false ↦ elim d [ true ↦ y | false ↦ z ] ]) ≡ z
elim_plain true d x y z e = absurd (cc)
elim_plain false true x y z e = absurd (cc)
elim_plain false false x y z e = refl

quoted_char :
    (b : Bool) (c : ℕ) (i val : Text)
    → is_special c ≡ b
    → 1 ≤ length i
    → quoted (escape_char b c i) val ≡ quoted i (val ++ (c ∷ []))
unfolding quoted
quoted_char b c [] val e h = absurd (omega arith)
quoted_char true c (d ∷ i) val e h = refl
quoted_char false c (d ∷ i) val e h =
    elim_plain (c == quote_mark) (c == backslash) (ok (val, d ∷ i)) (quoted i (val ++ (d ∷ [])))
      (quoted (d ∷ i) (val ++ (c ∷ []))) e

quoted-escape :
    (w rest val : Text) → quoted (escape w ++ (quote_mark ∷ rest)) val ≡ ok (val ++ w, rest)
unfolding quoted
quoted-escape [] [] val = rw (append-nil val)
quoted-escape [] (e ∷ rest) val = rw (append-nil val)
quoted-escape (c ∷ w) rest val = rw (
  escape_char-append (is_special c) c (escape w) (quote_mark ∷ rest),
  quoted_char (is_special c) c (escape w ++ (quote_mark ∷ rest)) val refl
      (omega (arith, length-append (escape w) (quote_mark ∷ rest))),
  quoted-escape w rest (val ++ (c ∷ [])),
  append_assoc val (c ∷ []) w,
)

abbrev reading : Text → List (ℕ × ℕ) → ℕ → Bool → ℕ → Text → Reading
reading val ps start new n i = record {
  setting_val = val;
  part_positions = some ps;
  part_start = start;
  new_part = new;
  line_num = n;
  rest = i;
}

-- A part with what follows it.
one_quote :
    (w i val : Text) (ps : List (ℕ × ℕ)) (start n : ℕ)
    → step quote_mark (escape w ++ (quote_mark ∷ i)) (reading val ps start true n (quote w i))
      ≡ ok (reading (val ++ w) ps (length val) false n i)
unfolding step begin_part after_quote
one_quote w i val ps start n = rw (quoted-escape w i val)

one_space :
    (i val : Text) (ps : List (ℕ × ℕ)) (start n : ℕ)
    → step space (quote_mark ∷ i) (reading val ps start false n (space ∷ quote_mark ∷ i))
      ≡ ok (
          reading
            (val ++ (space ∷ []))
            (ps ++ ((start, length val) ∷ []))
            start
            true
            n
            (quote_mark ∷ i))
unfolding step end_part add_position after_space add_space skip_comment skip_comment_from
one_space i val ps start n = refl

abbrev result : Result Reading → Result (List Text)
result m = m >>= λ s. ok (parts_of (end_part s))

span_starts : (val w : Text) → length ((val ++ w) ++ (space ∷ [])) ≡ length val + length w + 1
span_starts val w = omega (arith, length-append (val ++ w) (space ∷ []), length-append val w)

read_parts :
    (n : ℕ) (w : Text) (ws : List Text) (val : Text) (ps : List (ℕ × ℕ)) (start line : ℕ)
    → length (quote w (further ws)) ≤ n
    → result
        (read_loop n (quote w (further ws)) (reading val ps start true line (quote w (further ws))))
      ≡ ok (slices (val ++ (w ++ continued ws)) (ps ++ spans (length val) (w ∷ ws)))
unfolding read_loop end_part add_position
read_parts zero w ws val ps start line h = absurd (omega arith)
read_parts (suc n) w [] val ps start line h =
    rw (one_quote w [] val ps start line, length-append val w, append-nil w) refl
read_parts (suc zero) w (v ∷ ws) val ps start line h =
    absurd (omega (arith, length-append (escape w) (quote_mark ∷ further (v ∷ ws))))
read_parts (suc (suc n)) w (v ∷ ws) val ps start line h =
    rw
      (
        one_quote w (further (v ∷ ws)) val ps start line,
        one_space (escape v ++ (quote_mark ∷ further ws)) (val ++ w) ps (length val) line,
        read_parts n v ws ((val ++ w) ++ (space ∷ []))
            (ps ++ ((length val, length (val ++ w)) ∷ [])) (length val) line
            (omega (arith, length-append (escape w) (quote_mark ∷ further (v ∷ ws)))),
        span_starts val w,
        length-append val w,
      )
      (ap₂ (λ a b. ok (slices a b)) (simp (append_assoc))
        (append_assoc ps ((length val, length val + length w) ∷ []) _))

drop-append : (xs ys : Text) → drop (length xs) (xs ++ ys) ≡ ys
drop-append [] ys = refl
drop-append (x ∷ xs) ys = drop-append xs ys

take-append : (xs ys : Text) → take (length xs) (xs ++ ys) ≡ xs
take-append [] ys = refl
take-append (x ∷ xs) ys = ap (λ t. x ∷ t) (take-append xs ys)

slice-append :
    (pre w post : Text)
    → take ((length pre + length w) - length pre) (drop (length pre) (pre ++ (w ++ post))) ≡ w
slice-append pre w post =
    let e : (length pre + length w) - length pre ≡ length w = omega arith in
    rw (drop-append pre (w ++ post), e, take-append w post) refl

slices-spans :
    (pre w : Text) (ws : List Text)
    → slices (pre ++ (w ++ continued ws)) (spans (length pre) (w ∷ ws)) ≡ w ∷ ws
slices-spans pre w [] = ap (λ t. t ∷ []) (slice-append pre w [])
slices-spans pre w (v ∷ ws) =
    let e : (((pre ++ w) ++ (space ∷ [])) ++ (v ++ continued ws))
        ≡ pre ++ (w ++ continued (v ∷ ws)) =
      simp (append_assoc) in
    ap₂ (λ t ts. t ∷ ts) (slice-append pre w (continued (v ∷ ws)))
      (ap₂ slices (sym e) (ap (λ a. spans a (v ∷ ws)) (sym (span_starts pre w)))
        ∙ slices-spans ((pre ++ w) ++ (space ∷ [])) v ws)

bind_assoc :
    (m : Result Reading) (f : Reading → Result Reading) (g : Reading → Result (List Text))
    → ((m >>= f) >>= g) ≡ (m >>= λ s. f s >>= g)
bind_assoc (ok a) f g = refl
bind_assoc (err e) f g = refl

-- Any one or more parts, of any bytes, line breaks included, written in quote marks with a
-- backslash before each quote mark and backslash and a space between two parts, are read
-- back: the positions that `read_setting_value` notes cut the value that it reads into these
-- parts.
pub read_setting_value-written :
    (w : Text) (ws : List Text) (val : Text) (delimiter line : ℕ) (ps : List (ℕ × ℕ))
    → (read_setting_value val assign delimiter line (some ps) (written (w ∷ ws)) >>= λ r.
        ok (parts_of r))
      ≡ ok (w ∷ ws)
unfolding read_setting_value skip_ws_ln
read_setting_value-written w ws val delimiter line ps =
    let r = start_reading val assign delimiter line (some ps) (written (w ∷ ws)) in
    bind_assoc (read_loop (length (written (w ∷ ws))) r.rest r) (λ s. ok (end_part s))
      (λ r. ok (parts_of r))
    ∙ read_parts (length (written (w ∷ ws))) w ws [] [] 0 line (omega arith)
    ∙ ap (λ (t : List Text). ok t) (slices-spans [] w ws)
