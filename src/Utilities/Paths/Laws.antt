-- ===== src/Utilities/Paths/Laws.antt =====
-- How the functions on paths of cdinit/dinit/src/includes/dinit-util.h fit together.
use cdinit.Base.{
  if_case, ℕ, suc, ◌==◌, if◌then◌else◌, Bool, true, false, none, some, [], ◌∷◌, ◌++◌, length,
  get_or, take, arith, ◌≡◌, ◌↔◌, refl, ap, ap₂, ◌∙◌,
}
use cdinit.Utilities.{Text}
use cdinit.Utilities.Paths.{
  slash, last_char, combine_paths, last_slash, skip_slashes, parent_prefix, parent_at, parent_path,
  base_from, base_name, starts_with,
}

-- A text without a slash.
abbrev HasNoSlash : Text → Type 0
HasNoSlash [] = Unit {0}
HasNoSlash (c ∷ i) = ((c == slash) ≡ false) × HasNoSlash i

base_from-name : (b i : Text) → HasNoSlash i → base_from b i ≡ b
unfolding base_from
base_from-name b [] h = refl
base_from-name b (c ∷ i) h = rw h.0 (base_from-name b i h.1)

base_from-slash : (b i name : Text) → HasNoSlash name → base_from b (i ++ (slash ∷ name)) ≡ name
unfolding base_from
base_from-slash b [] name h = base_from-name name name h
base_from-slash b (c ∷ i) name h =
    if_case (c == slash) (λ t. t ≡ name) (base_from (i ++ (slash ∷ name)) (i ++ (slash ∷ name)))
      (base_from b (i ++ (slash ∷ name))) (λ _. base_from-slash (i ++ (slash ∷ name)) i name h)
      (λ _. base_from-slash b i name h)

last_slash-name : (i : Text) → HasNoSlash i → last_slash i ≡ none
unfolding last_slash
last_slash-name [] h = refl
last_slash-name (c ∷ i) h = rw (last_slash-name i h.1, h.0) refl

last_slash-append :
    (i name : Text) → HasNoSlash name → last_slash (i ++ (slash ∷ name)) ≡ some (length i)
unfolding last_slash
last_slash-append [] name h = rw (last_slash-name name h) refl
last_slash-append (c ∷ i) name h = rw (last_slash-append i name h) refl

take-length : (i j : Text) → take (length i) (i ++ j) ≡ i
take-length [] j = refl
take-length (c ∷ i) j = ap (λ t. c ∷ t) (take-length i j)

get_or-last : (c : ℕ) (i j : Text) → get_or (c ∷ (i ++ j)) (length i) 0 ≡ last_char c i
get_or-last c [] j = refl
get_or-last c (d ∷ i) j = get_or-last d i j

-- The directories that `parent_path` gives: none, the root, and those that do not end in a slash.
pub data IsDirectory : Text → Type 0 where
  here : IsDirectory []
  root : IsDirectory (slash ∷ [])
  named : {c : ℕ} {i : Text} → (last_char c i == slash) ≡ false → IsDirectory (c ∷ i)

-- A name in a directory.
pub data IsEntry : Text → Type 0 where
  entry : {c : ℕ} {i : Text} → HasNoSlash (c ∷ i) → IsEntry (c ∷ i)

stop_at : (p : Text) (k : ℕ) → (get_or p k 0 == slash) ≡ false → skip_slashes p (suc k) ≡ suc k
unfolding skip_slashes
stop_at p k h = rw h refl

parent_named :
    (c : ℕ) (i name : Text)
    → (last_char c i == slash) ≡ false
    → HasNoSlash name
    → parent_path ((c ∷ i) ++ (slash ∷ name)) ≡ c ∷ i
unfolding parent_path parent_at
parent_named c i name h k =
    let p = (c ∷ i) ++ (slash ∷ name) in
    ap (parent_at p) (last_slash-append (c ∷ i) name k)
    ∙ ap (parent_prefix p)
        (stop_at p (length i) (ap (λ x. x == slash) (get_or-last c i (slash ∷ name)) ∙ h))
    ∙ take-length (c ∷ i) (slash ∷ name)

-- For a directory that is empty, the root or does not end in a slash, and a name that is not
-- empty and has no slash: the path that `combine_paths` makes of them has the directory as
-- `parent_path` and the name as `base_name`.
pub parent_path-combine_paths :
    (dir name : Text)
    → IsDirectory dir
    → IsEntry name
    → (parent_path (combine_paths dir name) ≡ dir) × (base_name (combine_paths dir name) ≡ name)
unfolding combine_paths parent_path parent_at base_name
parent_path-combine_paths dir name here (entry {c = c} {i = i} h) =
    (ap (parent_at (c ∷ i)) (last_slash-name (c ∷ i) h), base_from-name (c ∷ i) (c ∷ i) h)
parent_path-combine_paths dir name root (entry {c = c} {i = i} h) =
    let e : combine_paths (slash ∷ []) (c ∷ i) ≡ slash ∷ c ∷ i = rw (h.0, combine_paths) refl in
    rw e (
      ap (parent_at (slash ∷ c ∷ i)) (last_slash-append [] (c ∷ i) h) ∙ refl,
      base_from-slash (slash ∷ c ∷ i) [] (c ∷ i) h,
    )
parent_path-combine_paths dir name (named {c = d} {i = j} l) (entry {c = c} {i = i} h) =
    let p = (d ∷ j) ++ (slash ∷ c ∷ i) in
    let e : combine_paths (d ∷ j) (c ∷ i) ≡ p = rw (h.0, combine_paths, l) refl in
    rw e (parent_named d j (c ∷ i) l h, base_from-slash p (d ∷ j) (c ∷ i) h)

abbrev Extends : Text → Text → Type 0
Extends s prefix = (rest : Text) × (s ≡ prefix ++ rest)

same_start :
    (b : Bool) (c d : ℕ) (s prefix : Text)
    → (b ≡ true → c ≡ d)
    → (if b then starts_with s prefix else false) ≡ true
    → (starts_with s prefix ≡ true → Extends s prefix)
    → Extends (c ∷ s) (d ∷ prefix)
same_start true c d s prefix e h k = let (rest, f) = k h in (rest, ap₂ (λ x xs. x ∷ xs) (e refl) f)
same_start false c d s prefix e h k = absurd (cc)

starts_with-Extends : (s prefix : Text) → starts_with s prefix ≡ true → Extends s prefix
unfolding starts_with
starts_with-Extends s [] h = (s, refl)
starts_with-Extends [] (d ∷ prefix) h = absurd (cc)
starts_with-Extends (c ∷ s) (d ∷ prefix) h =
    same_start (c == d) c d s prefix (λ e. ground arith) h (starts_with-Extends s prefix)

same_char : (c : ℕ) → (c == c) ≡ true
same_char c = ground arith

starts_with-append : (prefix rest : Text) → starts_with (prefix ++ rest) prefix ≡ true
unfolding starts_with
starts_with-append [] rest = refl
starts_with-append (c ∷ prefix) rest = rw (same_char c, starts_with-append prefix rest) refl

-- `starts_with` is true exactly if the text is the prefix with something, possibly empty,
-- behind it.
pub starts_with_iff :
    (s prefix : Text) → (starts_with s prefix ≡ true) ↔ ((rest : Text) × (s ≡ prefix ++ rest))
starts_with_iff s prefix = (
  starts_with-Extends s prefix,
  λ e. ap (λ t. starts_with t prefix) e.1 ∙ starts_with-append prefix e.0,
)
