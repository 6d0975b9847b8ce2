-- ===== src/Settings/Value.antt =====
-- `read_setting_value` of cdinit/dinit/src/includes/load-service.h.
pub mod Steps
pub mod Fuel
pub mod Safe
pub mod Parts
pub mod RoundTrip
use cdinit.Base.{
  ℕ, zero, suc, ◌==◌, if◌then◌else◌, Bool, true, false, Option, none, some, List, [], ◌∷◌, ◌++◌,
  length,
}
use cdinit.Settings.{
  Text, Result, ok, err, ◌>>=◌, unterminated_quote, hashmark, past_end, out_of_fuel,
}
use cdinit.Settings.Chars.{
  quote_mark, backslash, hash_mark, space, is_space, skip_ws_ln, skip_comment,
}

-- `setting_op_t`
pub data Operation : Type 0 where
  assign plus_assign colon : Operation

-- The variables of the loop. `part_positions` is `none` for the null pointer; `part_start` is not
-- initialised before the first part, here 0.
pub record Reading : Type 0 where
  pub setting_val : Text
  pub part_positions : Option (List (ℕ × ℕ))
  pub part_start : ℕ
  pub new_part : Bool
  pub line_num : ℕ
  pub rest : Text

-- Behind the opening quote mark: the value so far with what is quoted, and the text behind the
-- closing mark. A backslash at the very end makes the code step over the end.
unfoldable pub quoted : Text → Text → Result (Text × Text)
quoted [] val = err unterminated_quote
quoted (c ∷ []) val =
    if c == quote_mark
    then ok (val, [])
    else (if c == backslash then err past_end else err unterminated_quote)
quoted (c ∷ e ∷ i) val = elim (c == quote_mark) [
  | true ↦ ok (val, e ∷ i)
  | false ↦ elim (c == backslash) [
    | true ↦ quoted i (val ++ (e ∷ []))
    | false ↦ quoted (e ∷ i) (val ++ (c ∷ []))
  ]
]

unfoldable pub begin_part : Reading → Reading
begin_part r =
    if r.new_part then record r { part_start = length r.setting_val; new_part = false } else r

unfoldable pub add_position : Reading → Option (List (ℕ × ℕ)) → Reading
add_position r none = r
add_position r (some ps) = record r {
  part_positions = some (ps ++ ((r.part_start, length r.setting_val) ∷ []));
  new_part = true;
}

-- At white space or at the end: a part that has begun is noted, if positions are wanted.
unfoldable pub end_part : Reading → Reading
unfolding add_position
end_part r = if r.new_part then r else add_position r r.part_positions

unfoldable pub push : ℕ → Text → Reading → Reading
push c i r = record r { setting_val = r.setting_val ++ (c ∷ []); rest = i }

unfoldable pub escaped : Text → Reading → Result Reading
unfolding push
escaped [] r = err past_end
escaped (e ∷ i) r = ok (push e i r)

unfoldable pub add_space : Text → Reading → Reading
add_space [] r = r
add_space (c ∷ k) r = record r { setting_val = r.setting_val ++ (space ∷ []) }

-- White space, with comments: it becomes one space, or nothing at the end.
unfoldable pub after_space : Text → Reading → Reading
unfolding add_space
after_space i r =
    let (j, n) = skip_comment i r.line_num in add_space j (record r { line_num = n; rest = j })

unfoldable pub after_quote : Text × Text → Reading → Reading
after_quote (val, i) r = record r { setting_val = val; rest = i }

-- One round of the loop, at the character `c` with the text `i` behind it.
unfoldable pub step : ℕ → Text → Reading → Result Reading
unfolding quoted escaped after_space after_quote begin_part end_part push
step c i r =
    let b = begin_part r in
    if c == quote_mark
    then (quoted i b.setting_val >>= λ q. ok (after_quote q b))
    else if c == backslash
    then escaped i b
    else if is_space c
    then ok (after_space (c ∷ i) (end_part r))
    else if c == hash_mark
    then err hashmark
    else ok (push c i b)

unfoldable pub read_loop : ℕ → Text → Reading → Result Reading
read_loop n [] r = ok r
read_loop zero (c ∷ i) r = err out_of_fuel
read_loop (suc n) (c ∷ i) r = step c i r >>= λ s. read_loop n s.rest s

-- What an assignment starts from, and an addition with its delimiter.
abbrev pub start_value : Operation → ℕ → Text → Text
start_value assign delimiter val = []
start_value colon delimiter val = []
start_value plus_assign delimiter [] = []
start_value plus_assign delimiter (c ∷ val) = (c ∷ val) ++ (delimiter ∷ [])

abbrev pub start_positions : Operation → Option (List (ℕ × ℕ)) → Option (List (ℕ × ℕ))
start_positions assign none = none
start_positions assign (some ps) = some []
start_positions colon none = none
start_positions colon (some ps) = some []
start_positions plus_assign ps = ps

abbrev pub start_reading : Text → Operation → ℕ → ℕ → Option (List (ℕ × ℕ)) → Text → Reading
start_reading val op delimiter line_num ps text = record {
  setting_val = start_value op delimiter val;
  part_positions = start_positions op ps;
  part_start = 0;
  new_part = true;
  line_num = (skip_ws_ln text line_num).1;
  rest = (skip_ws_ln text line_num).0;
}

-- `read_setting_value(setting_val, operation, input_pos, i, end, part_positions, delimiter)`
unfoldable pub read_setting_value :
    Text → Operation → ℕ → ℕ → Option (List (ℕ × ℕ)) → Text → Result Reading
unfolding step read_loop
read_setting_value val op delimiter line_num ps text =
    let r = start_reading val op delimiter line_num ps text in
    read_loop (length text) r.rest r >>= λ s. ok (end_part s)
