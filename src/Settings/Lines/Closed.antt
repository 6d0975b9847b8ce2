-- ===== src/Settings/Lines/Closed.antt =====
-- The text that `process_service_file` of cdinit/dinit/src/includes/load-service.h hands to the
-- reading of a setting.
use cdinit.Base.{
  if_case, ℕ, suc, ◌==◌, if◌then◌else◌, Bool, true, false, List, [], ◌∷◌, ◌≡◌, ◌≢◌, arith, sym, ◌∙◌,
  ◌++◌,
}
use cdinit.Settings.{
  Text, Error, Result, ok, err, past_end, out_of_fuel, badly_formed_line, missing_indent,
}
use cdinit.Settings.Chars.{
  hash_mark, backslash, skip_ws_ln, read_config_name, span, is_name_char, starts_name,
}
use cdinit.Settings.Value.{Operation}
use cdinit.Settings.Value.Steps.{Holds, returns, fails, if-Holds, bind-Holds}
use cdinit.Settings.Value.Safe.{IsClosed, dangling-plain, skip_ws_ln-IsClosed}
use cdinit.Settings.Input.{InputStack}
use cdinit.Settings.Lines.{
  Command, nothing, meta, setting, continues, join_lines, join, end_line, starts_indented,
  read_plus, read_operator, read_setting, read_meta, read_command,
}
use cdinit.Settings.Lines.Backslash.{continues-dangling}

-- An error of the form of the lines.
abbrev pub IsFormat : Error → Type 0
IsFormat e = (e ≢ past_end) × (e ≢ out_of_fuel)

abbrev Joined : Text × List Text × ℕ → Type 0
Joined j = IsClosed j.0

join_lines-IsClosed :
    (line : Text) (ls : List Text) (n : ℕ) → Holds Joined IsFormat (join_lines line ls n)
unfolding join_lines
join_lines-IsClosed line [] n =
    if-Holds (continues line) _ _ (λ _. fails (λ e. cc, λ e. cc))
      (λ e. returns (sym (continues-dangling line) ∙ e))
join_lines-IsClosed line (l ∷ ls) n =
    if-Holds (continues line)
      (if starts_indented l then join_lines (end_line line ++ l) ls (suc n) else err missing_indent)
      (ok (line, l ∷ ls, n))
      (λ _.
        if-Holds (starts_indented l) (join_lines (end_line line ++ l) ls (suc n))
          (err missing_indent) (λ _. join_lines-IsClosed (end_line line ++ l) ls (suc n))
          (λ _. fails (λ e. cc, λ e. cc)))
      (λ e. returns (sym (continues-dangling line) ∙ e))

pub join-IsClosed :
    (line : Text) (st : InputStack)
    → Holds (λ (j : Text × InputStack). IsClosed j.0) IsFormat (join line st)
unfolding join
join-IsClosed line [] = fails (λ e. cc, λ e. cc)
join-IsClosed line (f ∷ st) =
    bind-Holds _ (join_lines-IsClosed line f.lines f.line_num) (λ j h. returns h)

name_plain : (c : ℕ) → is_name_char false c ≡ true → (c == backslash) ≡ false
name_plain c h = ground arith

digit_or_name :
    (p : ℕ → Bool) (i : Text)
    → ((c : ℕ) → p c ≡ true → (c == backslash) ≡ false)
    → IsClosed i
    → IsClosed (span p i).1
unfolding span
digit_or_name p [] k h = h
digit_or_name p (c ∷ i) k h =
    if_case (p c) (λ (q : Text × Text). IsClosed q.1) (c ∷ (span p i).0, (span p i).1) ([], c ∷ i)
      (λ e. digit_or_name p i k (sym (dangling-plain false c i (k c e)) ∙ h)) (λ _. h)

abbrev Named : Text × Bool × Text → Type 0
Named q = IsClosed q.2

read_config_name-IsClosed : (i : Text) → IsClosed i → Named (read_config_name false i)
unfolding read_config_name
read_config_name-IsClosed i h =
    if_case (starts_name i) Named
      ((span (is_name_char false) i).0, false, (span (is_name_char false) i).1) ([], false, i)
      (λ _. digit_or_name (is_name_char false) i name_plain h) (λ _. h)

equals_plain : (c : ℕ) → (c == 61) ≡ true → (c == backslash) ≡ false
equals_plain c h = ground arith

colon_plain : (c : ℕ) → (c == 58) ≡ true → (c == backslash) ≡ false
colon_plain c h = ground arith

plus_plain : (c : ℕ) → (c == 43) ≡ true → (c == backslash) ≡ false
plus_plain c h = ground arith

abbrev Operated : Operation × Text → Type 0
Operated p = IsClosed p.1

read_plus-IsClosed : (i : Text) → IsClosed i → Holds Operated IsFormat (read_plus i)
unfolding read_plus
read_plus-IsClosed [] h = fails (λ e. cc, λ e. cc)
read_plus-IsClosed (c ∷ i) h =
    if-Holds (c == 61) _ _ (λ e. returns (sym (dangling-plain false c i (equals_plain c e)) ∙ h))
      (λ _. fails (λ e. cc, λ e. cc))

read_operator-IsClosed : (i : Text) → IsClosed i → Holds Operated IsFormat (read_operator i)
unfolding read_operator
read_operator-IsClosed [] h = fails (λ e. cc, λ e. cc)
read_operator-IsClosed (c ∷ i) h =
    let last : Result (Operation × Text) =
      (if c == 43 then read_plus i else err badly_formed_line) in
    if-Holds (c == 61) _ _ (λ e. returns (sym (dangling-plain false c i (equals_plain c e)) ∙ h))
      (λ _.
        if-Holds (c == 58) _ last
          (λ e. returns (sym (dangling-plain false c i (colon_plain c e)) ∙ h))
          (λ _.
            if-Holds (c == 43) (read_plus i) (err badly_formed_line)
              (λ e. read_plus-IsClosed i (sym (dangling-plain false c i (plus_plain c e)) ∙ h))
              (λ _. fails (λ e. cc, λ e. cc))))

-- The text of a setting is closed.
abbrev pub IsReadable : Command → Type 0
IsReadable nothing = Unit {0}
IsReadable (meta name n i) = Unit {0}
IsReadable (setting name op n i) = IsClosed i

read_setting-IsReadable :
    (n : ℕ) (q : Text × Bool × Text) → Named q → Holds IsReadable IsFormat (read_setting n q)
unfolding read_setting
read_setting-IsReadable n ([], num, i) h = fails (λ e. cc, λ e. cc)
read_setting-IsReadable n (c ∷ name, num, i) h =
    bind-Holds _ (read_operator-IsClosed (skip_ws_ln i n).0 (skip_ws_ln-IsClosed i n h))
      (λ p k. returns (skip_ws_ln-IsClosed p.1 (skip_ws_ln i n).1 k))

pub read_command-IsReadable :
    (p : Text × ℕ) → IsClosed p.0 → Holds IsReadable IsFormat (read_command p)
unfolding read_command read_meta
read_command-IsReadable ([], n) h = returns tt
read_command-IsReadable (c ∷ i, n) h =
    let last : Result Command = read_setting n (read_config_name false (c ∷ i)) in
    let named : Result Command =
      (if c == 64 then ok (read_meta n (read_config_name false i)) else last) in
    if-Holds (c == hash_mark) (ok nothing) named (λ _. returns tt)
      (λ _.
        if-Holds (c == 64) (ok (read_meta n (read_config_name false i))) last (λ _. returns tt)
          (λ _.
            read_setting-IsReadable n (read_config_name false (c ∷ i))
              (read_config_name-IsClosed (c ∷ i) h)))
