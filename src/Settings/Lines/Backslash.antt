-- ===== src/Settings/Lines/Backslash.antt =====
-- The test for a line that is continued, in `process_service_file` of
-- cdinit/dinit/src/includes/load-service.h.
use mathlib.Core.List.{reverse, reverse-cons, reverse-reverse}
use cdinit.Base.{
  ℕ, ◌==◌, if◌then◌else◌, Bool, true, false, not, ◌&&◌, [], ◌∷◌, ◌++◌, ◌≡◌, refl, ap, ◌∙◌,
}
use cdinit.Settings.{Text}
use cdinit.Settings.Chars.{backslash}
use cdinit.Settings.Value.Safe.{dangling}
use cdinit.Settings.Lines.{odd_run, continues, continues_reversed}

dangling-snoc :
    (odd : Bool) (i : Text) (c : ℕ)
    → dangling odd (i ++ (c ∷ [])) ≡ (not (dangling odd i) && c == backslash)
unfolding dangling
dangling-snoc odd [] c = refl
dangling-snoc odd (d ∷ i) c = dangling-snoc (not odd && d == backslash) i c

toggled :
    (e d b : Bool)
    → (if e then (if d then not (not b) else not b) else b) ≡ (if not d && e then not b else b)
toggled true true true = refl
toggled true true false = refl
toggled true false b = refl
toggled false true b = refl
toggled false false b = refl

odd_run-dangling :
    (b : Bool) (r : Text) → odd_run b r ≡ (if dangling false (reverse r) then not b else b)
unfolding odd_run dangling
odd_run-dangling b [] = refl
odd_run-dangling b (c ∷ r) =
    rw (odd_run-dangling (not b) r, reverse-cons c r, dangling-snoc false (reverse r) c)
      (toggled (c == backslash) (dangling false (reverse r)) b)

if_true : (d e : Bool) → (e && (if d then false else true)) ≡ (not d && e)
if_true true true = refl
if_true true false = refl
if_true false true = refl
if_true false false = refl

reversed : (r : Text) → continues_reversed r ≡ dangling false (reverse r)
unfolding continues_reversed dangling
reversed [] = refl
reversed (c ∷ r) =
    rw (odd_run-dangling true r, reverse-cons c r, dangling-snoc false (reverse r) c)
      (if_true (dangling false (reverse r)) (c == backslash))

-- The test for a continued line, which counts the backslashes from the end of the line, says
-- the same as reading the line from its start: it ends in a backslash that no backslash
-- before it escapes.
pub continues-dangling : (line : Text) → continues line ≡ dangling false line
unfolding continues
continues-dangling line = reversed (reverse line) ∙ ap (dangling false) (reverse-reverse line)
