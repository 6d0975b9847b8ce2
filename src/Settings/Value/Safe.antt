-- ===== src/Settings/Value/Safe.antt =====
-- The backslash before the end of the text, in `read_setting_value` of
-- cdinit/dinit/src/includes/load-service.h.
use cdinit.Base.{
  if_case, ℕ, suc, ◌==◌, if◌then◌else◌, Bool, true, false, not, ◌&&◌, List, [], ◌∷◌, ◌≡◌, ◌≢◌, refl,
  arith, Option, ◌++◌, length, sym, ◌∙◌,
}
use cdinit.Settings.{Text, Error, Result, ok, err, past_end}
use cdinit.Settings.Chars.{
  is_space, skip_comment, skip_comment_from, skip_ws_ln, backslash, quote_mark, hash_mark, newline,
}
use cdinit.Settings.Value.{
  Operation, Reading, quoted, escaped, add_space, after_space, after_quote, step, begin_part,
  end_part, push, start_reading, read_setting_value,
}
use cdinit.Settings.Value.Steps.{
  Holds, returns, fails, if-Holds, elim-Holds, space_plain, quote_mark_plain, bind-Holds,
  step-Holds, read_loop-Holds,
}

-- Whether a text ends in a backslash that no backslash before it escapes, where `odd` says so of
-- what comes before the text.
unfoldable pub dangling : Bool → Text → Bool
dangling odd [] = odd
dangling odd (c ∷ i) = dangling (not odd && c == backslash) i

abbrev pub IsClosed : Text → Type 0
IsClosed i = dangling false i ≡ false

abbrev InBounds : Error → Type 0
InBounds e = e ≢ past_end

pub dangling-plain :
    (b : Bool) (c : ℕ) (i : Text) → (c == backslash) ≡ false → dangling b (c ∷ i) ≡ dangling false i
unfolding dangling
dangling-plain true c i e = refl
dangling-plain false c i e = rw (e, dangling) refl

pub dangling-backslash :
    (c : ℕ) (i : Text) → (c == backslash) ≡ true → dangling false (c ∷ i) ≡ dangling true i
unfolding dangling
dangling-backslash c i e = rw (e, dangling) refl

pub skip_ws_ln-IsClosed : (i : Text) (n : ℕ) → IsClosed i → IsClosed (skip_ws_ln i n).0
unfolding skip_ws_ln
skip_ws_ln-IsClosed [] n h = h
skip_ws_ln-IsClosed (c ∷ i) n h =
    if_case (is_space c) (λ q. IsClosed q.0) (skip_ws_ln i (if c == newline then suc n else n))
      (c ∷ i, if c == newline then suc n else n)
      (λ e.
        skip_ws_ln-IsClosed i (if c == newline then suc n else n)
          (sym (dangling-plain false c i (space_plain c e)) ∙ h))
      (λ _. h)

abbrev inside : Bool → ℕ → Bool
inside comment c = if c == hash_mark then true else (if c == newline then false else comment)

stop_outside :
    (comment : Bool) (c : ℕ) → (not (inside comment c) && not (is_space c)) ≡ true → comment ≡ false
stop_outside false c e = refl
stop_outside true c e = ground arith

and_false : (w s : Bool) → (not w && not s) ≡ false → w ≡ false → s ≡ true
and_false true s e h = absurd (cc)
and_false false true e h = refl
and_false false false e h = absurd (cc)

passed_plain :
    (comment odd : Bool) (c : ℕ)
    → (not (inside comment c) && not (is_space c)) ≡ false
    → inside comment c ≡ false
    → (not odd && c == backslash) ≡ false
passed_plain comment true c e w = refl
passed_plain comment false c e w = space_plain c (and_false (inside comment c) (is_space c) e w)

skip_comment_from-IsClosed :
    (comment odd : Bool) (i : Text) (n : ℕ)
    → (comment ≡ false → odd ≡ false)
    → dangling odd i ≡ false
    → IsClosed (skip_comment_from comment i n).0
unfolding skip_comment_from dangling
skip_comment_from-IsClosed comment odd [] n h k = refl
skip_comment_from-IsClosed comment odd (c ∷ i) n h k =
    let counted : ℕ = (if c == newline then suc n else n) in
    if_case (not (inside comment c) && not (is_space c)) (λ q. IsClosed q.0) (c ∷ i, counted)
      (skip_comment_from (inside comment c) i counted) (λ e. rw (h (stop_outside comment c e)) at k)
      (λ e.
        skip_comment_from-IsClosed (inside comment c) (not odd && c == backslash) i counted
          (passed_plain comment odd c e) k)

abbrev Closed2 : Text × Text → Type 0
Closed2 q = IsClosed q.1

not-IsClosed : (c : ℕ) → (c == backslash) ≡ true → ¬ IsClosed (c ∷ [])
unfolding dangling
not-IsClosed c e h = absurd (cc)

quoted-Safe : (i val : Text) → IsClosed i → Holds Closed2 InBounds (quoted i val)
unfolding quoted dangling
quoted-Safe [] val h = fails (λ e. cc)
quoted-Safe (c ∷ []) val h =
    if-Holds (c == quote_mark) _ _ (λ _. returns refl)
      (λ _. if-Holds (c == backslash) _ _ (λ e. absurd (not-IsClosed c e h)) (λ _. fails (λ e. cc)))
quoted-Safe (c ∷ e ∷ i) val h =
    elim-Holds (c == quote_mark) (ok (val, e ∷ i))
      (elim (c == backslash) [
        | true ↦ quoted i (val ++ (e ∷ []))
        | false ↦ quoted (e ∷ i) (val ++ (c ∷ []))
      ])
      (λ q. returns (sym (dangling-plain false c (e ∷ i) (quote_mark_plain c q)) ∙ h))
      (λ _.
        elim-Holds (c == backslash) (quoted i (val ++ (e ∷ []))) (quoted (e ∷ i) (val ++ (c ∷ [])))
          (λ q. quoted-Safe i (val ++ (e ∷ [])) (sym (dangling-backslash c (e ∷ i) q) ∙ h))
          (λ q. quoted-Safe (e ∷ i) (val ++ (c ∷ [])) (sym (dangling-plain false c (e ∷ i) q) ∙ h)))

escaped-Safe :
    (i : Text) (r : Reading)
    → dangling true i ≡ false
    → Holds (λ (s : Reading). IsClosed s.rest) InBounds (escaped i r)
unfolding escaped push dangling
escaped-Safe [] r h = absurd (cc)
escaped-Safe (e ∷ i) r h = returns h

abbrev IsRead : Reading → Type 0
IsRead s = IsClosed s.rest

skip_comment-IsClosed : (i : Text) (n : ℕ) → IsClosed i → IsClosed (skip_comment i n).0
unfolding skip_comment
skip_comment-IsClosed i n h = skip_comment_from-IsClosed false false i n (λ e. refl) h

add_space-IsRead : (j : Text) (r : Reading) → IsRead r → IsRead (add_space j r)
unfolding add_space
add_space-IsRead [] r h = h
add_space-IsRead (c ∷ k) r h = h

step-Safe :
    (c : ℕ) (i : Text) (r : Reading)
    → r.rest ≡ c ∷ i
    → IsRead r
    → Holds IsRead InBounds (step c i r)
unfolding after_quote after_space push
step-Safe c i r e p =
    let h : IsClosed (c ∷ i) = rw e at p in
    step-Holds {P = IsRead} {Q = InBounds} c i r
      (λ q.
        bind-Holds (λ q. ok (after_quote q (begin_part r)))
          (quoted-Safe i (begin_part r).setting_val
            (sym (dangling-plain false c i (quote_mark_plain c q)) ∙ h))
          (λ q l. returns l))
      (λ q. escaped-Safe i (begin_part r) (sym (dangling-backslash c i q) ∙ h))
      (λ q.
        add_space-IsRead (skip_comment (c ∷ i) (end_part r).line_num).0 _
          (skip_comment-IsClosed (c ∷ i) (end_part r).line_num h))
      (λ e. cc) (λ q. sym (dangling-plain false c i q) ∙ h)

no_error : {A : Type 0} {m : Result A} {P : A → Type 0} → Holds P InBounds m → m ≢ err past_end
no_error (returns u) e = cc
no_error (fails n) e = n (cc)

-- If no unescaped backslash ends the text, `read_setting_value` never steps over the end of
-- the text, for any operation.
pub read_setting_value-IsClosed :
    (val : Text) (op : Operation) (delimiter line_num : ℕ) (ps : Option (List (ℕ × ℕ)))
    (text : Text)
    → IsClosed text
    → read_setting_value val op delimiter line_num ps text ≢ err past_end
unfolding read_setting_value
read_setting_value-IsClosed val op delimiter line_num ps text h =
    let r = start_reading val op delimiter line_num ps text in
    no_error {P = λ r. Unit {0}} (
      bind-Holds (λ s. ok (end_part s))
        (read_loop-Holds {P = IsRead} {Q = InBounds} step-Safe (λ e. cc) (length text) r.rest r refl
          (skip_ws_ln-IsClosed text line_num h))
        (λ s _. returns tt))
