-- ===== src/Environment/Tests.antt =====
-- `environment` of cdinit/dinit/src/includes/dinit-env.h on small texts.
use cdinit.Base.{if◌then◌else◌, true, false, Option, none, some, List, [], ◌∷◌, ◌≡◌, refl}
use cdinit.Environment.{
  Text, text_eq, find_var, find_var_name, contains_name, erase_var, parent_var, get_else,
  Environment, get, set_var, undefine_var,
}
use cdinit.Environment.Laws.{Op, sets, undefines, imports, run, view, run_view, get_refines}

-- The variable `A` of the process is `1`, and no other is set.
abbrev getenv : Text → Option Text
getenv n = if text_eq n (65 ∷ []) then some (49 ∷ []) else none

abbrev inherits : Environment
inherits = record { keep_parent_env = true; import_from_parent = []; undefine = []; set_vars = [] }

abbrev b_is_2 : Text
b_is_2 = 66 ∷ 61 ∷ 50 ∷ []

set_notified : (set_var getenv inherits b_is_2 true).1 ≡ some (b_is_2, false)
unfolding set_var find_var find_var_name contains_name
set_notified = refl

-- `undefine_var` does not hide the variable of the process from `get`.
undefined_still :
    get getenv (undefine_var getenv inherits (65 ∷ []) false).0 (65 ∷ []) ≡ some (65 ∷ 61 ∷ 49 ∷ [])
unfolding get get_else undefine_var find_var erase_var parent_var
undefined_still = refl

abbrev ops : List Op
ops = sets b_is_2 false ∷ undefines (65 ∷ []) false ∷ imports (66 ∷ []) ∷ []

get_refines_example :
    view getenv (run getenv inherits ops) ≡ run_view getenv (view getenv inherits) ops
get_refines_example = get_refines getenv inherits ops
