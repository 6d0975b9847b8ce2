-- ===== src/Settings/Lines/Safe.antt =====
-- Errors of the callbacks of `process_service_file` of cdinit/dinit/src/includes/load-service.h.
use cdinit.Base.{
  elim_option, ℕ, zero, suc, if◌then◌else◌, Option, List, [], ◌∷◌, ◌≢◌, ap, Bool, true, false,
}
use cdinit.Settings.{Text, Error, Result, ok, err, ◌>>=◌, past_end, bad_meta_command}
use cdinit.Settings.Chars.{skip_ws_ln}
use cdinit.Settings.Value.{Operation}
use cdinit.Settings.Value.Steps.{Holds, returns, fails, if-Holds, bind-Holds}
use cdinit.Settings.Value.Safe.{IsClosed, skip_ws_ln-IsClosed}
use cdinit.Settings.Input.{InputStack, getline, current_line}
use cdinit.Settings.Lines.{Command, nothing, meta, setting, join}
use cdinit.Settings.Lines.Process.{
  run, run_include, run_line, process_service_file, add_include, include, include_opt, meta_cmd,
  same,
}
use cdinit.Settings.Lines.Closed.{IsFormat, IsReadable, join-IsClosed, read_command-IsReadable}

abbrev Any {ℓ} : {A : Type ℓ} → A → Type 0
Any a = Unit {0}

pub widen {ℓ} :
    {A : Type ℓ} {P : A → Type 0} {Q R : Error → Type 0} {m : Result A}
    → ((e : Error) → Q e → R e)
    → Holds P Q m
    → Holds P R m
widen k (returns h) = returns h
widen k (fails h) = fails (k _ h)

pub not_error {ℓ} :
    {A : Type ℓ} (x : Error) (m : Result A) → m ≢ err x → Holds Any (λ (e : Error). e ≢ x) m
not_error x (ok a) h = returns tt
not_error x (err e) h = fails (λ k. h (ap (λ t. err t) k))

pub not_error_lem {ℓ} :
    {A : Type ℓ} {x : Error} {m : Result A} {P : A → Type 0}
    → Holds P (λ (e : Error). e ≢ x) m
    → m ≢ err x
not_error_lem (returns u) e = cc
not_error_lem (fails n) e = n (cc)

both {ℓ} :
    {A : Type ℓ} {P R : A → Type 0} {Q T : Error → Type 0} {m : Result A}
    → Holds P Q m
    → Holds R T m
    → Holds (λ a. P a × R a) Q m
both (returns h) (returns k) = returns (h, k)
both (fails h) k = fails h

trivial {ℓ} : {A : Type ℓ} (m : Result A) → Holds (λ a. Unit {0}) (λ e. Unit {0}) m
trivial (ok a) = returns tt
trivial (err e) = fails tt

-- An error `x` that is not one of the form of the lines, and what the files on the stack keep.
module _ {S : Type 0} (process_line : Text → Operation → ℕ → Text → S → Result S)
    (process_meta : Text → S → S)
    (open_include : Bool → ℕ → Text → Result (Option (Text × List Text))) (x : Error)
    (Fits : InputStack → Type 0) (format : (e : Error) → IsFormat e → e ≢ x)
    (lines : (name : Text) (op : Operation) (n : ℕ) (i : Text) (s : S)
      → IsClosed i
      → process_line name op n i s ≢ err x)
    (opens : (b : Bool) (n : ℕ) (i : Text) (st : InputStack)
      → Fits st
      → Holds (λ f. Fits (add_include f st)) (λ (e : Error). e ≢ x) (open_include b n i))
    (joins : (line : Text) (st : InputStack)
      → Fits st
      → Holds (λ (j : Text × InputStack). Fits j.1) (λ (e : Error). Unit {0}) (join line st)) where
  abbrev Runs : Result (InputStack × S) → Type 0
  Runs = Holds (λ (q : InputStack × S). Fits q.0) (λ (e : Error). e ≢ x)

  include-Runs :
      (b : Bool) (n : ℕ) (i : Text) (st : InputStack) (s : S)
      → Fits st
      → Runs (run_include process_line process_meta open_include b n i st s)
  unfolding run_include
  include-Runs b n i st s h = bind-Holds _ (opens b n i st h) (λ f k. returns k)

  run-Runs :
      (c : Command) (st : InputStack) (s : S)
      → IsReadable c
      → Fits st
      → Runs (run process_line process_meta open_include c st s)
  unfolding run
  run-Runs nothing st s h k = returns k
  run-Runs (meta name n i) st s h k =
      let last : Result (InputStack × S) =
        (if same name meta_cmd then ok (st, process_meta i s) else err bad_meta_command) in
      let inc : Bool → Result (InputStack × S) =
        λ b. run_include process_line process_meta open_include b n i st s in
      let one : Result (InputStack × S) = (if same name include then inc false else last) in
      if-Holds (same name include_opt) (inc true) one (λ _. include-Runs true n i st s k)
        (λ _.
          if-Holds (same name include) (inc false) last (λ _. include-Runs false n i st s k)
            (λ _.
              if-Holds (same name meta_cmd) _ _ (λ _. returns k)
                (λ _. fails (format _ (λ e. cc, λ e. cc)))))
  run-Runs (setting name op n i) st s h k =
      bind-Holds _ (not_error x (process_line name op n i s) (lines name op n i s h))
        (λ t _. returns k)

  pub run_line-Runs :
      (line : Text) (st : InputStack) (s : S)
      → Fits st
      → Runs (run_line process_line process_meta open_include line st s)
  unfolding run_line
  run_line-Runs [] st s k = returns k
  run_line-Runs (c ∷ i) st s k =
      bind-Holds _ (both (widen format (join-IsClosed (c ∷ i) st)) (joins (c ∷ i) st k)) (λ j h.
        bind-Holds _
          (widen format (
            read_command-IsReadable (skip_ws_ln j.0 (current_line st))
              (skip_ws_ln-IsClosed j.0 (current_line st) h.0)))
          (λ cmd r. run-Runs cmd j.1 s r h.1))

abbrev InBounds : Error → Type 0
InBounds e = e ≢ past_end

module _ {S : Type 0} (process_line : Text → Operation → ℕ → Text → S → Result S)
    (process_meta : Text → S → S)
    (open_include : Bool → ℕ → Text → Result (Option (Text × List Text)))
    (lines : (name : Text) (op : Operation) (n : ℕ) (i : Text) (s : S)
      → IsClosed i
      → process_line name op n i s ≢ err past_end)
    (opens : (b : Bool) (n : ℕ) (i : Text) → open_include b n i ≢ err past_end) where
  files :
      (n : ℕ) (st : InputStack) (s : S)
      → Holds Any InBounds (process_service_file process_line process_meta open_include n st s)
  unfolding process_service_file
  files zero st s = fails (λ e. cc)
  files (suc n) st s =
      elim_option (getline st) (Holds Any InBounds) (ok s)
        (λ p. run_line process_line process_meta open_include p.0 p.1 s >>= λ q.
          process_service_file process_line process_meta open_include n q.0 q.1)
        (λ _. returns tt)
        (λ p _.
          bind-Holds _
            (run_line-Runs process_line process_meta open_include past_end (λ st. Unit {0})
              (λ e h. h.0) lines
              (λ b m i _ _. not_error past_end (open_include b m i) (opens b m i))
              (λ line st _. trivial (join line st)) p.0 p.1 s tt)
            (λ q _. files n q.0 q.1))

  -- If no callback steps over the end of a text when it is given a setting whose text no
  -- unescaped backslash ends, and opening an included file does not either, the reading of
  -- a file with its includes never does, whatever the lines are and however many rounds it
  -- has.
  pub process_service_file-InBounds :
      (n : ℕ) (st : InputStack) (s : S)
      → process_service_file process_line process_meta open_include n st s ≢ err past_end
  process_service_file-InBounds n st s = not_error_lem (files n st s)
