-- ===== src/Settings/Lines.antt =====
-- `process_service_file` of cdinit/dinit/src/includes/load-service.h: the lines of a service
-- description, joined where a backslash ends one, and what they say.
pub mod Backslash
pub mod Closed
pub mod Process
pub mod Safe
pub mod Ends
use mathlib.Core.List.{reverse}
use cdinit.Base.{
  ℕ, zero, suc, ◌==◌, if◌then◌else◌, Bool, true, false, not, ◌&&◌, Option, none, some, List, [],
  ◌∷◌, ◌++◌, length,
}
use cdinit.Settings.{
  Text, Result, ok, err, ◌>>=◌, out_of_fuel, end_of_file_after_backslash, missing_indent,
  badly_formed_line,
}
use cdinit.Settings.Chars.{
  backslash, newline, hash_mark, is_space, skip_ws, skip_ws_ln, read_config_name,
}
use cdinit.Settings.Value.{Operation, assign, plus_assign, colon}
use cdinit.Settings.Input.{InputStack}

-- The loop over the backslashes before the last character, from the end.
unfoldable pub odd_run : Bool → Text → Bool
odd_run is_odd_number [] = is_odd_number
odd_run is_odd_number (c ∷ r) =
    let further = odd_run (not is_odd_number) r in if c == backslash then further else is_odd_number

unfoldable continues_reversed : Text → Bool
unfolding odd_run
continues_reversed [] = false
continues_reversed (c ∷ r) = c == backslash && odd_run true r

-- Whether the next line continues this one.
unfoldable pub continues : Text → Bool
unfolding continues_reversed
continues line = continues_reversed (reverse line)

-- `line.back() = '\n'`
unfoldable pub end_line : Text → Text
end_line [] = []
end_line (c ∷ []) = newline ∷ []
end_line (c ∷ d ∷ i) = c ∷ end_line (d ∷ i)

-- `j != nextline.begin()`, where `j` is behind the white space.
abbrev pub starts_indented : Text → Bool
starts_indented [] = false
starts_indented (c ∷ i) = is_space c

-- The lines of a file that continue a line, by `getline_same_file`: the line that they make up, the
-- lines behind them and the number of the line read last.
unfoldable pub join_lines : Text → List Text → ℕ → Result (Text × List Text × ℕ)
unfolding continues end_line
join_lines line [] n = if continues line then err end_of_file_after_backslash else ok (line, [], n)
join_lines line (l ∷ ls) n =
    let rest = join_lines (end_line line ++ l) ls (suc n) in
    if continues line
    then (if starts_indented l then rest else err missing_indent)
    else ok (line, l ∷ ls, n)

unfoldable pub join : Text → InputStack → Result (Text × InputStack)
unfolding join_lines
join line [] = err end_of_file_after_backslash
join line (f ∷ st) = join_lines line f.lines f.line_num >>= λ j.
    ok (j.0, record f { lines = j.1; line_num = j.2 } ∷ st)

-- What a line says, with the number of the line that it is said on.
pub data Command : Type 0 where
  nothing : Command
  meta : Text → ℕ → Text → Command
  setting : Text → Operation → ℕ → Text → Command

unfoldable pub read_plus : Text → Result (Operation × Text)
read_plus [] = err badly_formed_line
read_plus (c ∷ i) = if c == 61 then ok (plus_assign, i) else err badly_formed_line

-- `=`, `:` or `+=`
unfoldable pub read_operator : Text → Result (Operation × Text)
unfolding read_plus
read_operator [] = err badly_formed_line
read_operator (c ∷ i) =
    if c == 61
    then ok (assign, i)
    else (if c == 58
        then ok (colon, i)
        else (if c == 43 then read_plus i else err badly_formed_line))

unfoldable pub read_setting : ℕ → Text × Bool × Text → Result Command
unfolding read_operator
read_setting line_num ([], num, i) = err badly_formed_line
read_setting line_num (c ∷ name, num, i) =
    let (j, n) = skip_ws_ln i line_num in
    read_operator j >>= λ p. ok (setting (c ∷ name) p.0 (skip_ws_ln p.1 n).1 (skip_ws_ln p.1 n).0)

unfoldable pub read_meta : ℕ → Text × Bool × Text → Command
read_meta line_num (name, num, i) = meta name line_num i

unfoldable pub read_command : Text × ℕ → Result Command
unfolding read_setting read_meta
read_command ([], line_num) = ok nothing
read_command (c ∷ i, line_num) =
    if c == hash_mark
    then ok nothing
    else if c == 64
    then ok (read_meta line_num (read_config_name false i))
    else read_setting line_num (read_config_name false (c ∷ i))
