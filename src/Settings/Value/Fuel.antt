-- ===== src/Settings/Value/Fuel.antt =====
-- The rounds of `read_setting_value` in cdinit/dinit/src/includes/load-service.h.
use cdinit.Base.{
  ℕ, zero, suc, ◌≤◌, ◌==◌, if◌then◌else◌, Bool, true, false, not, ◌&&◌, ◌++◌, List, [], ◌∷◌, ◌≡◌,
  ◌≢◌, refl, ap, length, arith, Option,
}
use cdinit.Settings.{Text, Error, Result, ok, err, out_of_fuel}
use cdinit.Settings.Chars.{
  is_space, skip_comment, skip_comment_from, skip_ws_ln, backslash, quote_mark, hash_mark, newline,
}
use cdinit.Settings.Value.{
  Operation, Reading, quoted, escaped, after_space, after_quote, add_space, step, read_loop,
  begin_part, end_part, push, start_reading, read_setting_value,
}
use cdinit.Settings.Value.Steps.{
  Holds, returns, fails, if-Holds, elim-Holds, bind-Holds, step-Holds,
}

abbrev IsModelled : Error → Type 0
IsModelled e = e ≢ out_of_fuel

if_length :
    {m : ℕ} (b : Bool) (x y : Text × ℕ)
    → length x.0 ≤ m
    → length y.0 ≤ m
    → length (if b then x else y).0 ≤ m
if_length true x y h k = h
if_length false x y h k = k

skip_comment_from_length :
    (b : Bool) (i : Text) (n : ℕ) → length (skip_comment_from b i n).0 ≤ length i
unfolding skip_comment_from
skip_comment_from_length b [] n = omega arith
skip_comment_from_length b (c ∷ i) n =
    let within : Bool = (if c == hash_mark then true else (if c == newline then false else b)) in
    let counted : ℕ = (if c == newline then suc n else n) in
    if_length (not within && not (is_space c)) (c ∷ i, counted) (skip_comment_from within i counted)
      (omega arith) (omega (arith, skip_comment_from_length within i counted))

skip_ws_ln_length : (i : Text) (n : ℕ) → length (skip_ws_ln i n).0 ≤ length i
unfolding skip_ws_ln
skip_ws_ln_length [] n = omega arith
skip_ws_ln_length (c ∷ i) n = ground (arith, skip_ws_ln_length i (if c == 10 then suc n else n))

passed :
    {m : ℕ} (w s : Bool) (x y : Text × ℕ)
    → s ≡ true
    → length y.0 ≤ m
    → length (if not w && not s then x else y).0 ≤ m
passed true s x y e h = h
passed false true x y e h = h
passed false false x y e h = absurd (cc)

-- White space is passed.
skip_comment_length :
    (c : ℕ) (i : Text) (n : ℕ) → is_space c ≡ true → length (skip_comment (c ∷ i) n).0 ≤ length i
unfolding skip_comment skip_comment_from
skip_comment_length c i n e =
    let within : Bool =
      (if c == hash_mark then true else (if c == newline then false else false)) in
    let counted : ℕ = (if c == newline then suc n else n) in
    passed within (is_space c) (c ∷ i, counted) (skip_comment_from within i counted) e
      (skip_comment_from_length within i counted)

abbrev Shorter : ℕ → Result (Text × Text) → Type 0
Shorter m = Holds (λ (q : Text × Text). length q.1 ≤ m) IsModelled

weaken : {m k : ℕ} {q : Result (Text × Text)} → m ≤ k → Shorter m q → Shorter k q
weaken h (returns l) = returns (omega arith)
weaken h (fails e) = fails e

quoted-Holds : (i val : Text) → Shorter (length i) (quoted i val)
unfolding quoted
quoted-Holds [] val = fails (λ e. cc)
quoted-Holds (c ∷ []) val =
    if-Holds (c == quote_mark) _ _ (λ _. returns (omega arith))
      (λ _. if-Holds (c == backslash) _ _ (λ _. fails (λ e. cc)) (λ _. fails (λ e. cc)))
quoted-Holds (c ∷ e ∷ i) val =
    elim-Holds (c == quote_mark) (ok (val, e ∷ i))
      (elim (c == backslash) [
        | true ↦ quoted i (val ++ (e ∷ []))
        | false ↦ quoted (e ∷ i) (val ++ (c ∷ []))
      ])
      (λ _. returns (omega arith))
      (λ _.
        elim-Holds (c == backslash) (quoted i (val ++ (e ∷ []))) (quoted (e ∷ i) (val ++ (c ∷ [])))
          (λ _. weaken (omega arith) (quoted-Holds i (val ++ (e ∷ []))))
          (λ _. weaken (omega arith) (quoted-Holds (e ∷ i) (val ++ (c ∷ [])))))

escaped-Holds :
    (i : Text) (r : Reading)
    → Holds (λ (s : Reading). length s.rest ≤ length i) IsModelled (escaped i r)
unfolding escaped
escaped-Holds [] r = fails (λ e. cc)
escaped-Holds (e ∷ i) r = returns (omega arith)

add_space_rest : (j : Text) (r : Reading) → (add_space j r).rest ≡ r.rest
unfolding add_space
add_space_rest [] r = refl
add_space_rest (c ∷ k) r = refl

after_space_length :
    (c : ℕ) (i : Text) (r : Reading)
    → is_space c ≡ true
    → length (after_space (c ∷ i) r).rest ≤ length i
unfolding after_space
after_space_length c i r e =
    let j : Text = (skip_comment (c ∷ i) r.line_num).0 in
    let n : ℕ = (skip_comment (c ∷ i) r.line_num).1 in
    omega (
      arith,
      ap (λ (t : Text). length t) (add_space_rest j (record r { line_num = n; rest = j })),
      skip_comment_length c i r.line_num e,
    )

abbrev Read : ℕ → Reading → Type 0
Read m s = length s.rest ≤ m

round-Holds : (c : ℕ) (i : Text) (r : Reading) → Holds (Read (length i)) IsModelled (step c i r)
unfolding after_quote push
round-Holds c i r =
    step-Holds {P = Read (length i)} {Q = IsModelled} c i r
      (λ _.
        bind-Holds (λ q. ok (after_quote q (begin_part r)))
          (quoted-Holds i (begin_part r).setting_val) (λ q l. returns l))
      (λ _. escaped-Holds i (begin_part r)) (λ e. after_space_length c i (end_part r) e) (λ e. cc)
      (λ _. omega arith)

abbrev IsTotal : Result Reading → Type 0
IsTotal = Holds (λ r. Unit) IsModelled

read_loop-IsTotal : (n : ℕ) (i : Text) (r : Reading) → length i ≤ n → IsTotal (read_loop n i r)
unfolding read_loop
read_loop-IsTotal n [] r h = returns tt
read_loop-IsTotal zero (c ∷ i) r h = absurd (omega arith)
read_loop-IsTotal (suc n) (c ∷ i) r h =
    bind-Holds (λ s. read_loop n s.rest s) (round-Holds c i r)
      (λ s l. read_loop-IsTotal n s.rest s (omega arith))

total_lem : {m : Result Reading} → IsTotal m → m ≢ err out_of_fuel
total_lem (returns u) e = cc
total_lem (fails n) e = n (cc)

-- The loop of `read_setting_value` never runs out of fuel: the length of the text is enough
-- rounds, for any text and any operation.
pub read_setting_value_total :
    (val : Text) (op : Operation) (delimiter line_num : ℕ) (ps : Option (List (ℕ × ℕ)))
    (text : Text)
    → read_setting_value val op delimiter line_num ps text ≢ err out_of_fuel
unfolding read_setting_value
read_setting_value_total val op delimiter line_num ps text =
    let r = start_reading val op delimiter line_num ps text in
    total_lem (
      bind-Holds (λ s. ok (end_part s))
        (read_loop-IsTotal (length text) r.rest r (skip_ws_ln_length text line_num))
        (λ s _. returns tt))
