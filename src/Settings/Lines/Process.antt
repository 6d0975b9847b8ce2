-- ===== src/Settings/Lines/Process.antt =====
-- The loop of `process_service_file` of cdinit/dinit/src/includes/load-service.h.
use cdinit.Base.{
  ℕ, zero, suc, ◌==◌, if◌then◌else◌, Bool, true, false, ◌&&◌, Option, none, some, List, [], ◌∷◌,
}
use cdinit.Settings.{Text, Result, ok, err, ◌>>=◌, out_of_fuel, bad_meta_command}
use cdinit.Settings.Chars.{skip_ws_ln}
use cdinit.Settings.Value.{Operation}
use cdinit.Settings.Input.{InputStack, getline, push_file, current_line}
use cdinit.Settings.Lines.{Command, nothing, meta, setting, join, read_command}

abbrev pub same : Text → Text → Bool
same [] [] = true
same [] (d ∷ j) = false
same (c ∷ i) [] = false
same (c ∷ i) (d ∷ j) = c == d && same i j

-- "include", "include-opt" and "meta"
abbrev pub include : Text
include = 105 ∷ 110 ∷ 99 ∷ 108 ∷ 117 ∷ 100 ∷ 101 ∷ []

abbrev pub include_opt : Text
include_opt = 105 ∷ 110 ∷ 99 ∷ 108 ∷ 117 ∷ 100 ∷ 101 ∷ 45 ∷ 111 ∷ 112 ∷ 116 ∷ []

abbrev pub meta_cmd : Text
meta_cmd = 109 ∷ 101 ∷ 116 ∷ 97 ∷ []

abbrev pub add_include : Option (Text × List Text) → InputStack → InputStack
add_include none st = st
add_include (some f) st = push_file f.0 f.1 st

-- `process_line` and `process_meta` are the callbacks, on a state. `open_include` stands for
-- `read_include_path` with the opening of the file: the name and the lines of the file, none where a
-- file that may be missing is.
module _ {S : Type 0} (process_line : Text → Operation → ℕ → Text → S → Result S)
    (process_meta : Text → S → S)
    (open_include : Bool → ℕ → Text → Result (Option (Text × List Text))) where
  unfoldable pub run_include : Bool → ℕ → Text → InputStack → S → Result (InputStack × S)
  run_include is_include_opt n i st s =
      open_include is_include_opt n i >>= λ f. ok (add_include f st, s)

  unfoldable pub run : Command → InputStack → S → Result (InputStack × S)
  unfolding run_include
  run nothing st s = ok (st, s)
  run (meta name n i) st s =
      if same name include_opt
      then run_include true n i st s
      else if same name include
      then run_include false n i st s
      else if same name meta_cmd
      then ok (st, process_meta i s)
      else err bad_meta_command
  run (setting name op n i) st s = process_line name op n i s >>= λ t. ok (st, t)

  -- A line that is not empty, with those that continue it.
  unfoldable pub run_line : Text → InputStack → S → Result (InputStack × S)
  unfolding run
  run_line [] st s = ok (st, s)
  run_line (c ∷ i) st s = join (c ∷ i) st >>= λ j.
      read_command (skip_ws_ln j.0 (current_line st)) >>= λ cmd. run cmd j.1 s

  unfoldable pub process_service_file : ℕ → InputStack → S → Result S
  unfolding run_line
  process_service_file zero st s = err out_of_fuel
  process_service_file (suc n) st s = elim (getline st) [
    | none ↦ ok s
    | some p ↦ run_line p.0 p.1 s >>= λ q. process_service_file n q.0 q.1
  ]
