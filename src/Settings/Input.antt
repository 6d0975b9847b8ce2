-- ===== src/Settings/Input.antt =====
-- `file_input_stack` of cdinit/dinit/src/includes/file-input-stack.h.
--
-- A file is the list of its lines: the streams give each of them and no errors. The directory of a
-- file is left out.
use cdinit.Base.{ℕ, suc, Option, none, some, List, [], ◌∷◌}
use cdinit.Settings.{Text}

pub record InputFile : Type 0 where
  pub lines : List Text
  pub file_name : Text
  pub line_num : ℕ

abbrev pub InputStack : Type 0
InputStack = List InputFile

abbrev pub push_file : Text → List Text → InputStack → InputStack
push_file name lines st = record { lines = lines; file_name = name; line_num = 0 } ∷ st

unfoldable pub top_line :
    List Text → InputFile → InputStack → Option (Text × InputStack) → Option (Text × InputStack)
top_line [] f st below = below
top_line (line ∷ ls) f st below =
    some (line, record f { lines = ls; line_num = suc f.line_num } ∷ st)

-- The line, and the stack without the files that have ended.
unfoldable pub getline : InputStack → Option (Text × InputStack)
unfolding top_line
getline [] = none
getline (f ∷ st) = let below = getline st in top_line f.lines f st below

abbrev pub current_line : InputStack → ℕ
current_line [] = 0
current_line (f ∷ st) = f.line_num
