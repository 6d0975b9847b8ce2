-- ===== src/Settings/Lines/Ends.antt =====
-- The end of the loop of `process_service_file` of cdinit/dinit/src/includes/load-service.h.
use cdinit.Base.{
  ℕ, zero, suc, ◌+◌, ◌≤◌, ◌<◌, if◌then◌else◌, Option, none, some, List, [], ◌∷◌, ◌++◌, ◌≡◌, ◌≢◌,
  Bool, length, arith,
}
use cdinit.Settings.{Text, Error, Result, ok, err, ◌>>=◌, out_of_fuel, missing_indent}
use cdinit.Settings.Value.{Operation}
use cdinit.Settings.Value.Steps.{Holds, returns, fails, if-Holds, bind-Holds}
use cdinit.Settings.Input.{InputFile, InputStack, top_line, getline}
use cdinit.Settings.Lines.{continues, join_lines, join, end_line, starts_indented}
use cdinit.Settings.Lines.Process.{add_include, run_line, process_service_file}
use cdinit.Settings.Lines.Safe.{not_error_lem, run_line-Runs}

-- The lines that are left.
abbrev pub lines_left : InputStack → ℕ
lines_left [] = 0
lines_left (f ∷ st) = length f.lines + lines_left st

abbrev Any : Error → Type 0
Any e = Unit {0}

abbrev Modelled : Error → Type 0
Modelled e = e ≢ out_of_fuel

join_lines_left :
    (line : Text) (ls : List Text) (n : ℕ)
    → Holds (λ (j : Text × List Text × ℕ). length j.1 ≤ length ls) Any (join_lines line ls n)
unfolding join_lines
join_lines_left line [] n =
    if-Holds (continues line) _ _ (λ _. fails tt) (λ _. returns (omega arith))
join_lines_left line (l ∷ ls) n =
    if-Holds (continues line)
      (if starts_indented l then join_lines (end_line line ++ l) ls (suc n) else err missing_indent)
      (ok (line, l ∷ ls, n))
      (λ _.
        if-Holds (starts_indented l) (join_lines (end_line line ++ l) ls (suc n))
          (err missing_indent) (λ _. less (join_lines_left (end_line line ++ l) ls (suc n)))
          (λ _. fails tt))
      (λ _. returns (omega arith))
  where
    less :
        {m : Result (Text × List Text × ℕ)}
        → Holds (λ (j : Text × List Text × ℕ). length j.1 ≤ length ls) Any m
        → Holds (λ (j : Text × List Text × ℕ). length j.1 ≤ suc (length ls)) Any m
    less (returns h) = returns (omega arith)
    less (fails h) = fails h

join_left :
    (line : Text) (st : InputStack)
    → Holds (λ (j : Text × InputStack). lines_left j.1 ≤ lines_left st) Any (join line st)
unfolding join
join_left line [] = fails tt
join_left line (f ∷ st) =
    bind-Holds _ (join_lines_left line f.lines f.line_num) (λ j h. returns (omega arith))

data HasRead (n : ℕ) : Option (Text × InputStack) → Type 0 where
  ended : HasRead n none
  has_read : {p : Text × InputStack} → lines_left p.1 < n → HasRead n (some p)

more : {n m : ℕ} {o : Option (Text × InputStack)} → n ≤ m → HasRead n o → HasRead m o
more h ended = ended
more h (has_read k) = has_read (omega arith)

top_line-HasRead :
    (ls : List Text) (f : InputFile) (st : InputStack) (o : Option (Text × InputStack))
    → HasRead (lines_left st) o
    → HasRead (length ls + lines_left st) (top_line ls f st o)
unfolding top_line
top_line-HasRead [] f st o h = more (omega arith) h
top_line-HasRead (line ∷ ls) f st o h = has_read (omega arith)

getline-HasRead : (st : InputStack) → HasRead (lines_left st) (getline st)
unfolding getline
getline-HasRead [] = ended
getline-HasRead (f ∷ st) = top_line-HasRead f.lines f st (getline st) (getline-HasRead st)

elim_read {κ} :
    {n : ℕ} {B : Type κ} {o : Option (Text × InputStack)} (P : B → Type 0) (x : B)
    (f : Text × InputStack → B)
    → HasRead n o
    → P x
    → ((p : Text × InputStack) → lines_left p.1 < n → P (f p))
    → P (elim o [ none ↦ x | some p ↦ f p ])
elim_read P x f ended h k = h
elim_read P x f (has_read {p = p} l) h k = k p l

module _ {S : Type 0} (process_line : Text → Operation → ℕ → Text → S → Result S)
    (process_meta : Text → S → S)
    (open_include : Bool → ℕ → Text → Result (Option (Text × List Text)))
    (lines : (name : Text) (op : Operation) (n : ℕ) (i : Text) (s : S)
      → process_line name op n i s ≢ err out_of_fuel)
    (opens : (b : Bool) (n : ℕ) (i : Text)
      → Holds (λ (f : Option (Text × List Text)). f ≡ none) Modelled (open_include b n i)) where
  unopened :
      (m : ℕ) (b : Bool) (n : ℕ) (i : Text) (st : InputStack)
      → lines_left st ≤ m
      → Holds (λ f. lines_left (add_include f st) ≤ m) Modelled (open_include b n i)
  unopened m b n i st h = bind_same (opens b n i)
    where
      bind_same :
          {r : Result (Option (Text × List Text))}
          → Holds (λ (f : Option (Text × List Text)). f ≡ none) Modelled r
          → Holds (λ f. lines_left (add_include f st) ≤ m) Modelled r
      bind_same (returns e) = returns (rw e h)
      bind_same (fails e) = fails e

  join_within :
      (m : ℕ) (line : Text) (st : InputStack)
      → lines_left st ≤ m
      → Holds (λ (j : Text × InputStack). lines_left j.1 ≤ m) Any (join line st)
  join_within m line st h = within (join_left line st)
    where
      within :
          {r : Result (Text × InputStack)}
          → Holds (λ (j : Text × InputStack). lines_left j.1 ≤ lines_left st) Any r
          → Holds (λ (j : Text × InputStack). lines_left j.1 ≤ m) Any r
      within (returns k) = returns (omega arith)
      within (fails k) = fails k

  files :
      (n : ℕ) (st : InputStack) (s : S)
      → lines_left st < n
      → Holds
          (λ (s : S). Unit {0})
          Modelled
          (process_service_file process_line process_meta open_include n st s)
  unfolding process_service_file
  files zero st s l = absurd (omega arith)
  files (suc n) st s l =
      elim_read (Holds (λ (s : S). Unit {0}) Modelled) (ok s)
        (λ p. run_line process_line process_meta open_include p.0 p.1 s >>= λ q.
          process_service_file process_line process_meta open_include n q.0 q.1)
        (getline-HasRead st) (returns tt)
        (λ p h.
          bind-Holds _
            (run_line-Runs process_line process_meta open_include out_of_fuel
              (λ t. lines_left t ≤ lines_left p.1) (λ e h. h.1)
              (λ name op m i s _. lines name op m i s) (unopened (lines_left p.1))
              (join_within (lines_left p.1)) p.0 p.1 s (omega arith))
            (λ q k. files n q.0 q.1 (omega arith)))

  -- If no file is included and the callbacks do not run out of fuel, the reading of the
  -- files does not run out of fuel with a round for each line that is left and one more.
  pub process_service_file_total :
      (n : ℕ) (st : InputStack) (s : S)
      → lines_left st < n
      → process_service_file process_line process_meta open_include n st s ≢ err out_of_fuel
  process_service_file_total n st s l = not_error_lem (files n st s l)
