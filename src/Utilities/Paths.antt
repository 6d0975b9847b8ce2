-- ===== src/Utilities/Paths.antt =====
-- `combine_paths`, `parent_path`, `base_name` and `starts_with` of
-- cdinit/dinit/src/includes/dinit-util.h.
--
-- No character of a text is nul, so that a C string and a `string_view` are the same text.
pub mod Laws
use cdinit.Base.{
  ℕ, zero, suc, ◌==◌, if◌then◌else◌, Bool, true, false, Option, none, some, [], ◌∷◌, ◌++◌, get_or,
  take,
}
use cdinit.Utilities.{Text}

abbrev pub slash : ℕ
slash = 47

-- `*(p.rbegin())`
abbrev pub last_char : ℕ → Text → ℕ
last_char d [] = d
last_char d (c ∷ i) = last_char c i

unfoldable pub combine_paths : Text → Text → Text
combine_paths p1 [] = p1
combine_paths [] (c ∷ p2) = c ∷ p2
combine_paths (d ∷ p1) (c ∷ p2) =
    if c == slash
    then c ∷ p2
    else if last_char d p1 == slash
    then (d ∷ p1) ++ (c ∷ p2)
    else (d ∷ p1) ++ (slash ∷ c ∷ p2)

abbrev later_slash : ℕ → Option ℕ → Option ℕ
later_slash c (some k) = some (suc k)
later_slash c none = if c == slash then some 0 else none

-- `p.rfind('/')`
unfoldable pub last_slash : Text → Option ℕ
last_slash [] = none
last_slash (c ∷ i) = let later = last_slash i in later_slash c later

-- `while (spos > 0 && p[spos - 1] == '/') --spos;`
unfoldable pub skip_slashes : Text → ℕ → ℕ
skip_slashes p zero = zero
skip_slashes p (suc spos) =
    let less = skip_slashes p spos in if get_or p spos 0 == slash then less else suc spos

abbrev pub parent_prefix : Text → ℕ → Text
parent_prefix p zero = take 1 p
parent_prefix p (suc spos) = take (suc spos) p

unfoldable pub parent_at : Text → Option ℕ → Text
unfolding skip_slashes
parent_at p none = []
parent_at p (some spos) = parent_prefix p (skip_slashes p spos)

unfoldable pub parent_path : Text → Text
unfolding last_slash parent_at
parent_path p = parent_at p (last_slash p)

-- The loop of `base_name`, at the text behind the last slash so far and the text that is left.
unfoldable pub base_from : Text → Text → Text
base_from basen [] = basen
base_from basen (c ∷ s) =
    let behind = base_from s s in
    let within = base_from basen s in if c == slash then behind else within

unfoldable pub base_name : Text → Text
unfolding base_from
base_name path = base_from path path

unfoldable pub starts_with : Text → Text → Bool
starts_with s [] = true
starts_with [] (d ∷ prefix) = false
starts_with (c ∷ s) (d ∷ prefix) = let rest = starts_with s prefix in if c == d then rest else false
