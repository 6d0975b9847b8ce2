-- ===== src/Environment/Laws.antt =====
-- What `get` of `environment` (cdinit/dinit/src/includes/dinit-env.h) gives after its operations.
use cdinit.Base.{
  if◌then◌else◌, Bool, false, Option, none, some, List, [], ◌∷◌, ◌≡◌, refl, ap, ◌∙◌, inl, inr,
  Bool-cases, fun_ext,
}
use cdinit.Environment.{
  Text, Environment, text_eq, find_var_name, contains_name, find_var, parent_var, get_else, get,
  set_var, undefine_var, import_parent_var, clear_no_inherit,
}
use cdinit.Environment.Sets.{
  contains_name-erase_name, contains_name-insert_name, find_var-erase_var, find_var-put_var,
}

pub data Op : Type 0 where
  sets : Text → Bool → Op
  undefines : Text → Bool → Op
  imports : Text → Op
  clears : Op

-- Whether the environment as a whole is kept, and the variable that each name has.
abbrev View : Type 0
View = Bool × (Text → Option Text)

module _ (getenv : Text → Option Text) where
  abbrev inherited : Text → Option Text
  inherited k = parent_var getenv k (getenv k)

  abbrev perform : Environment → Op → Environment
  perform e (sets v b) = (set_var getenv e v b).0
  perform e (undefines n b) = (undefine_var getenv e n b).0
  perform e (imports n) = import_parent_var e n
  perform e clears = clear_no_inherit e

  abbrev pub run : Environment → List Op → Environment
  run e [] = e
  run e (o ∷ ops) = run (perform e o) ops

  abbrev expect : View → Op → View
  expect (kept, look) (sets v b) =
      (kept, λ k. if text_eq (find_var_name v) k then some v else look k)
  expect (kept, look) (undefines n b) =
      (kept, λ k. if text_eq n k then (if kept then inherited k else none) else look k)
  expect (kept, look) (imports n) = (kept, λ k. if text_eq n k then inherited k else look k)
  expect (kept, look) clears = (false, λ k. none)

  abbrev pub run_view : View → List Op → View
  run_view v [] = v
  run_view v (o ∷ ops) = run_view (expect v o) ops

  abbrev pub view : Environment → View
  view e = (e.keep_parent_env, get getenv e)

  get-set_var :
      (e : Environment) (v : Text) (b : Bool) (k : Text)
      → get getenv (set_var getenv e v b).0 k
        ≡ (if text_eq (find_var_name v) k then some v else get getenv e k)
  unfolding get get_else set_var
  get-set_var e v b k =
      rw
        (
          find_var-put_var e.set_vars v k,
          contains_name-erase_name (find_var_name v) k e.import_from_parent,
        )
        (elim (Bool-cases (text_eq (find_var_name v) k)) [ inl h ↦ rw h refl | inr h ↦ rw h refl ])

  get-undefine_var :
      (e : Environment) (n : Text) (b : Bool) (k : Text)
      → get getenv (undefine_var getenv e n b).0 k ≡ (
          if text_eq n k then (if e.keep_parent_env then inherited k else none) else get getenv e k)
  unfolding get get_else undefine_var
  get-undefine_var e n b k =
      rw (find_var-erase_var n k e.set_vars, contains_name-erase_name n k e.import_from_parent)
        (elim (Bool-cases (text_eq n k)) [
          | inl h ↦
              rw h (elim (Bool-cases e.keep_parent_env) [ inl p ↦ rw p refl | inr p ↦ rw p refl ])
          | inr h ↦ rw h refl
        ])

  get-import_parent_var :
      (e : Environment) (n k : Text)
      → get getenv (import_parent_var e n) k ≡ (if text_eq n k then inherited k else get getenv e k)
  unfolding get get_else import_parent_var
  get-import_parent_var e n k =
      rw (find_var-erase_var n k e.set_vars) (elim (Bool-cases e.keep_parent_env) [
        | inl p ↦ rw p (elim (Bool-cases (text_eq n k)) [ inl h ↦ rw h refl | inr h ↦ rw h refl ])
        | inr p ↦
            rw (p, contains_name-insert_name n k e.import_from_parent)
              (elim (Bool-cases (text_eq n k)) [ inl h ↦ rw h refl | inr h ↦ rw h refl ])
      ])

  get-clear_no_inherit : (e : Environment) (k : Text) → get getenv (clear_no_inherit e) k ≡ none
  unfolding get get_else clear_no_inherit find_var contains_name
  get-clear_no_inherit e k = refl

  perform-view : (e : Environment) (o : Op) → view (perform e o) ≡ expect (view e) o
  unfolding set_var undefine_var import_parent_var clear_no_inherit
  perform-view e (sets v b) = ap (λ f. (e.keep_parent_env, f)) (fun_ext (get-set_var e v b))
  perform-view e (undefines n b) =
      ap (λ f. (e.keep_parent_env, f)) (fun_ext (get-undefine_var e n b))
  perform-view e (imports n) =
      ap (λ f. (e.keep_parent_env, f)) (fun_ext (get-import_parent_var e n))
  perform-view e clears = ap (λ f. (false, f)) (fun_ext (get-clear_no_inherit e))

  -- After any sequence of `set_var`, `undefine_var`, `import_parent_var` and
  -- `clear_no_inherit`, `get` gives what the same sequence gives on a function from names
  -- to variables: a variable that was set last is the one given, an import gives that of
  -- the process, an undefined one that of the process if the environment is kept as a
  -- whole and none otherwise, and a clearing leaves none.
  pub get_refines : (e : Environment) (ops : List Op) → view (run e ops) ≡ run_view (view e) ops
  get_refines e [] = refl
  get_refines e (o ∷ ops) =
      get_refines (perform e o) ops ∙ ap (λ v. run_view v ops) (perform-view e o)
