-- ===== src/Settings/Chars.antt =====
-- Character classes of the classic locale, and the loops over white space of
-- cdinit/dinit/src/includes/load-service.h.
use cdinit.Base.{ℕ, suc, ◌==◌, leb, ltb, if◌then◌else◌, Bool, true, false, ◌||◌, ◌&&◌, not, [], ◌∷◌}
use cdinit.Settings.{Text}

-- `'"'`, `'\\'`, `'#'`, `'\n'` and `' '`.
abbrev pub quote_mark : ℕ
quote_mark = 34

abbrev pub backslash : ℕ
backslash = 92

abbrev pub hash_mark : ℕ
hash_mark = 35

abbrev pub newline : ℕ
newline = 10

abbrev pub space : ℕ
space = 32

abbrev between : ℕ → ℕ → ℕ → Bool
between a b c = leb a c && leb c b

abbrev pub is_space : ℕ → Bool
is_space c = c == space || (leb 9 c && leb c 13)

abbrev pub is_digit : ℕ → Bool
is_digit c = leb 48 c && leb c 57

abbrev pub is_cntrl : ℕ → Bool
is_cntrl c = ltb c 32 || c == 127

abbrev pub is_punct : ℕ → Bool
is_punct c = between 33 47 c || between 58 64 c || between 91 96 c || between 123 126 c

unfoldable pub skip_ws : Text → Text
skip_ws [] = []
skip_ws (c ∷ i) = let rest = skip_ws i in if is_space c then rest else c ∷ i

-- `skip_ws_ln`, with the line number that it counts.
unfoldable pub skip_ws_ln : Text → ℕ → Text × ℕ
skip_ws_ln [] count = ([], count)
skip_ws_ln (c ∷ i) count =
    let counted = if c == newline then suc count else count in
    let rest = skip_ws_ln i counted in if is_space c then rest else (c ∷ i, counted)

-- The loop of `skip_comment`, with its flag.
unfoldable pub skip_comment_from : Bool → Text → ℕ → Text × ℕ
skip_comment_from comment [] count = ([], count)
skip_comment_from comment (c ∷ i) count =
    let within = if c == hash_mark then true else (if c == newline then false else comment) in
    let counted = if c == newline then suc count else count in
    let rest = skip_comment_from within i counted in
    if not within && not (is_space c) then (c ∷ i, counted) else rest

unfoldable pub skip_comment : Text → ℕ → Text × ℕ
unfolding skip_comment_from
skip_comment = skip_comment_from false

unfoldable pub find_ws : Text → Text
find_ws [] = []
find_ws (c ∷ i) = let rest = find_ws i in if is_space c then c ∷ i else rest

abbrev pub is_name_char : Bool → ℕ → Bool
is_name_char env c =
    ((c == 45 || c == 46) && not env)
    || c == 95
    || (not (is_cntrl c) && not (is_punct c) && not (is_space c))

-- The loops of `read_config_name`: the longest start of such characters, and what is left.
unfoldable pub span : (ℕ → Bool) → Text → Text × Text
span p [] = ([], [])
span p (c ∷ i) = let (name, rest) = span p i in if p c then (c ∷ name, rest) else ([], c ∷ i)

-- Whether a name may start here: `-`, `.` and digits may not.
abbrev pub starts_name : Text → Bool
starts_name [] = false
starts_name (c ∷ i) = not (c == 45 || c == 46 || is_digit c)

abbrev pub starts_number : Text → Bool
starts_number [] = false
starts_number (c ∷ i) = is_digit c

-- `read_config_name`: the name, whether it is a number, which `*num` says if it is false before the
-- call, and the rest.
unfoldable pub read_config_name : Bool → Text → Text × Bool × Text
unfolding span
read_config_name env i =
    let (number, after) = span is_digit i in
    let (name, rest) = span (is_name_char env) i in
    if env && starts_number i
    then (number, true, after)
    else (if starts_name i then (name, false, rest) else ([], false, i))
