-- ===== src/Environment.antt =====
-- cdinit/dinit/src/includes/dinit-env.h: the class `environment`, by the operations on its variables.
--
-- Text is a list of bytes. A set is the list of its elements; the order of an unordered set is no part
-- of what is said. `getenv` is a parameter, and gives the value of a variable of the process itself.
-- A listener's notification is the pair that it is called with. A variable that is set has an `=`;
-- the code reads behind the end of a text that has none.
pub mod Sets
pub mod Laws
mod Tests
use cdinit.Base.{
  ℕ, ◌==◌, if◌then◌else◌, Bool, true, false, not, ◌&&◌, ◌||◌, Option, none, some, is_some, List, [],
  ◌∷◌, ◌++◌,
}

abbrev pub Text : Type 0
Text = List ℕ

abbrev pub text_eq : Text → Text → Bool
text_eq [] [] = true
text_eq [] (d ∷ t) = false
text_eq (c ∷ s) [] = false
text_eq (c ∷ s) (d ∷ t) = let rest = text_eq s t in if c == d then rest else false

-- The text before the first `=`.
unfoldable pub find_var_name : Text → Text
find_var_name [] = []
find_var_name (c ∷ s) = let rest = find_var_name s in if c == 61 then [] else c ∷ rest

pub record Environment : Type 0 where
  pub keep_parent_env : Bool
  pub import_from_parent : List Text
  pub undefine : List Text
  pub set_vars : List Text

unfoldable pub contains_name : List Text → Text → Bool
contains_name [] n = false
contains_name (m ∷ ms) n = let rest = contains_name ms n in if text_eq m n then true else rest

unfoldable pub erase_name : List Text → Text → List Text
erase_name [] n = []
erase_name (m ∷ ms) n = let rest = erase_name ms n in if text_eq m n then rest else m ∷ rest

unfoldable pub find_var : List Text → Text → Option Text
find_var [] n = none
find_var (v ∷ vs) n =
    let rest = find_var vs n in if text_eq (find_var_name v) n then some v else rest

unfoldable pub erase_var : List Text → Text → List Text
erase_var [] n = []
erase_var (v ∷ vs) n =
    let rest = erase_var vs n in if text_eq (find_var_name v) n then rest else v ∷ rest

-- The variable in place of the one of its name, if there is one.
unfoldable pub put_var : List Text → Text → List Text
put_var [] v = v ∷ []
put_var (w ∷ ws) v =
    let rest = put_var ws v in
    if text_eq (find_var_name w) (find_var_name v) then v ∷ ws else w ∷ rest

abbrev pub insert_name : List Text → Text → List Text
insert_name ns n = if contains_name ns n then ns else n ∷ ns

module _ (getenv : Text → Option Text) where
  unfoldable pub parent_var : Text → Option Text → Option Text
  parent_var n none = none
  parent_var n (some val) = some (n ++ (61 ∷ val))

  unfoldable pub get_else : Bool → Text → Option Text → Option Text
  get_else absent n (some v) = some v
  get_else absent n none = if absent then none else parent_var n (getenv n)

  unfoldable pub get : Environment → Text → Option Text
  unfolding get_else
  get e n =
      let absent = not e.keep_parent_env && not (contains_name e.import_from_parent n) in
      get_else absent n (find_var e.set_vars n)

  unfoldable pub set_var : Environment → Text → Bool → Environment × Option (Text × Bool)
  set_var e v notify =
      let n = find_var_name v in
      let in_sysenv = notify && not (contains_name e.undefine n) && is_some (getenv n) in
      let overridden = is_some (find_var e.set_vars n) || in_sysenv in
      (
        record e {
          import_from_parent = erase_name e.import_from_parent n;
          undefine = erase_name e.undefine n;
          set_vars = put_var e.set_vars v;
        },
        if notify then some (v, overridden) else none,
      )

  unfoldable pub undefine_var : Environment → Text → Bool → Environment × Option (Text × Bool)
  undefine_var e n notify =
      let was_set = is_some (find_var e.set_vars n) || (notify && is_some (getenv n)) in
      (
        record e {
          import_from_parent = erase_name e.import_from_parent n;
          undefine = if e.keep_parent_env then insert_name e.undefine n else e.undefine;
          set_vars = erase_var e.set_vars n;
        },
        if notify then some (n, was_set) else none,
      )

unfoldable pub import_parent_var : Environment → Text → Environment
import_parent_var e n = record e {
  import_from_parent =
      if e.keep_parent_env then e.import_from_parent else insert_name e.import_from_parent n;
  undefine = erase_name e.undefine n;
  set_vars = erase_var e.set_vars n;
}

unfoldable pub clear_no_inherit : Environment → Environment
clear_no_inherit e = record {
  keep_parent_env = false;
  import_from_parent = [];
  undefine = [];
  set_vars = [];
}
