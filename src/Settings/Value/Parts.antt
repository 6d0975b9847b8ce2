-- ===== src/Settings/Value/Parts.antt =====
-- The positions of the parts that `read_setting_value` of
-- cdinit/dinit/src/includes/load-service.h notes.
use cdinit.Base.{
  ℕ, ◌≤◌, ◌==◌, Bool, true, false, Option, none, some, List, [], ◌∷◌, ◌++◌, length, length-append,
  arith, ◌≡◌, refl,
}
use cdinit.Settings.{Text, Error, ok}
use cdinit.Settings.Chars.{quote_mark, backslash}
use cdinit.Settings.Value.{
  Operation, assign, plus_assign, colon, Reading, quoted, escaped, add_space, after_space,
  after_quote, step, begin_part, add_position, end_part, push, start_reading, start_value,
  start_positions, read_setting_value,
}
use cdinit.Settings.Value.Steps.{
  Holds, returns, fails, if-Holds, elim-Holds, bind-Holds, step-Holds, read_loop-Holds,
}

-- The parts lie one behind the other from `lo` to `hi`.
abbrev pub IsOrdered : ℕ → List (ℕ × ℕ) → ℕ → Type 0
IsOrdered lo [] hi = lo ≤ hi
IsOrdered lo (p ∷ ps) hi = (lo ≤ p.0) × (p.0 ≤ p.1) × IsOrdered p.1 ps hi

abbrev pub ArePlaced : Option (List (ℕ × ℕ)) → ℕ → Type 0
ArePlaced none n = Unit {0}
ArePlaced (some ps) n = IsOrdered 0 ps n

-- The same with the part that has begun.
abbrev IsCut : Option (List (ℕ × ℕ)) → Bool → ℕ → ℕ → Type 0
IsCut none new start n = Unit {0}
IsCut (some ps) true start n = IsOrdered 0 ps n
IsCut (some ps) false start n = IsOrdered 0 ps start × (start ≤ n)

abbrev IsNoted : Reading → Type 0
IsNoted r = IsCut r.part_positions r.new_part r.part_start (length r.setting_val)

abbrev Any : Error → Type 0
Any e = Unit {0}

IsOrdered-le :
    (lo : ℕ) (ps : List (ℕ × ℕ)) (n m : ℕ) → IsOrdered lo ps n → n ≤ m → IsOrdered lo ps m
IsOrdered-le lo [] n m h k = omega arith
IsOrdered-le lo (p ∷ ps) n m h k = (h.0, h.1, IsOrdered-le p.1 ps n m h.2 k)

IsOrdered-snoc :
    (lo : ℕ) (ps : List (ℕ × ℕ)) (a b : ℕ)
    → IsOrdered lo ps a
    → a ≤ b
    → IsOrdered lo (ps ++ ((a, b) ∷ [])) b
IsOrdered-snoc lo [] a b h k = (h, k, omega arith)
IsOrdered-snoc lo (p ∷ ps) a b h k = (h.0, h.1, IsOrdered-snoc p.1 ps a b h.2 k)

cut_le :
    (ps : Option (List (ℕ × ℕ))) (new : Bool) (start n m : ℕ)
    → IsCut ps new start n
    → n ≤ m
    → IsCut ps new start m
cut_le none new start n m h k = tt
cut_le (some ps) true start n m h k = IsOrdered-le 0 ps n m h k
cut_le (some ps) false start n m h k = (h.0, omega arith)

module _ (val : Text) (start line : ℕ) (i : Text) where
  abbrev reading : Option (List (ℕ × ℕ)) → Bool → Reading
  reading ps new = record {
    setting_val = val;
    part_positions = ps;
    part_start = start;
    new_part = new;
    line_num = line;
    rest = i;
  }

  begun :
      (ps : Option (List (ℕ × ℕ))) (new : Bool)
      → IsNoted (reading ps new)
      → IsNoted (begin_part (reading ps new))
  unfolding begin_part
  begun none true h = tt
  begun none false h = tt
  begun (some ps) true h = (h, omega arith)
  begun (some ps) false h = h

  ended :
      (ps : Option (List (ℕ × ℕ))) (new : Bool)
      → IsNoted (reading ps new)
      → IsNoted (end_part (reading ps new))
  unfolding end_part add_position
  ended none true h = tt
  ended none false h = tt
  ended (some ps) true h = h
  ended (some ps) false h = IsOrdered-snoc 0 ps start (length val) h.0 h.1

  ended_placed :
      (ps : Option (List (ℕ × ℕ))) (new : Bool)
      → IsNoted (reading ps new)
      → ArePlaced
          (end_part (reading ps new)).part_positions
          (length (end_part (reading ps new)).setting_val)
  unfolding end_part add_position
  ended_placed none true h = tt
  ended_placed none false h = tt
  ended_placed (some ps) true h = h
  ended_placed (some ps) false h = IsOrdered-snoc 0 ps start (length val) h.0 h.1

begin_part-IsNoted : (r : Reading) → IsNoted r → IsNoted (begin_part r)
begin_part-IsNoted r h =
    begun r.setting_val r.part_start r.line_num r.rest r.part_positions r.new_part h

end_part-IsNoted : (r : Reading) → IsNoted r → IsNoted (end_part r)
end_part-IsNoted r h =
    ended r.setting_val r.part_start r.line_num r.rest r.part_positions r.new_part h

push-IsNoted : (c : ℕ) (i : Text) (r : Reading) → IsNoted r → IsNoted (push c i r)
unfolding push
push-IsNoted c i r h =
    cut_le r.part_positions r.new_part r.part_start (length r.setting_val)
      (length (r.setting_val ++ (c ∷ []))) h (omega (arith, length-append r.setting_val (c ∷ [])))

add_space-IsNoted : (j : Text) (r : Reading) → IsNoted r → IsNoted (add_space j r)
unfolding add_space push
add_space-IsNoted [] r h = h
add_space-IsNoted (c ∷ k) r h = push-IsNoted 32 r.rest r h

abbrev Grows : Text → Text × Text → Type 0
Grows val q = length val ≤ length q.0

quoted-Grows : (i val w : Text) → length val ≤ length w → Holds (Grows val) Any (quoted i w)
unfolding quoted
quoted-Grows [] val w h = fails tt
quoted-Grows (c ∷ []) val w h =
    if-Holds (c == quote_mark) _ _ (λ _. returns h)
      (λ _. if-Holds (c == backslash) _ _ (λ _. fails tt) (λ _. fails tt))
quoted-Grows (c ∷ e ∷ i) val w h =
    elim-Holds (c == quote_mark) (ok (w, e ∷ i))
      (elim (c == backslash) [
        | true ↦ quoted i (w ++ (e ∷ []))
        | false ↦ quoted (e ∷ i) (w ++ (c ∷ []))
      ])
      (λ _. returns h)
      (λ _.
        elim-Holds (c == backslash) (quoted i (w ++ (e ∷ []))) (quoted (e ∷ i) (w ++ (c ∷ [])))
          (λ _. quoted-Grows i val (w ++ (e ∷ [])) (omega (arith, length-append w (e ∷ []))))
          (λ _. quoted-Grows (e ∷ i) val (w ++ (c ∷ [])) (omega (arith, length-append w (c ∷ [])))))

escaped-IsNoted : (i : Text) (r : Reading) → IsNoted r → Holds IsNoted Any (escaped i r)
unfolding escaped
escaped-IsNoted [] r h = fails tt
escaped-IsNoted (e ∷ i) r h = returns (push-IsNoted e i r h)

after_quote-IsNoted :
    (q : Text × Text) (r : Reading) → Grows r.setting_val q → IsNoted r → IsNoted (after_quote q r)
unfolding after_quote
after_quote-IsNoted q r l h =
    cut_le r.part_positions r.new_part r.part_start (length r.setting_val) (length q.0) h l

after_space-IsNoted : (i : Text) (r : Reading) → IsNoted r → IsNoted (after_space i r)
unfolding after_space
after_space-IsNoted i r h = add_space-IsNoted _ _ h

step-IsNoted :
    (c : ℕ) (i : Text) (r : Reading) → r.rest ≡ c ∷ i → IsNoted r → Holds IsNoted Any (step c i r)
step-IsNoted c i r e h =
    let b = begin_part-IsNoted r h in
    step-Holds {P = IsNoted} {Q = Any} c i r
      (λ _.
        bind-Holds (λ q. ok (after_quote q (begin_part r)))
          (quoted-Grows i (begin_part r).setting_val (begin_part r).setting_val (omega arith))
          (λ q l. returns (after_quote-IsNoted q (begin_part r) l b)))
      (λ _. escaped-IsNoted i (begin_part r) b)
      (λ _. after_space-IsNoted (c ∷ i) (end_part r) (end_part-IsNoted r h)) tt
      (λ _. push-IsNoted c i (begin_part r) b)

started :
    (val : Text) (op : Operation) (delimiter : ℕ) (ps : Option (List (ℕ × ℕ)))
    → ArePlaced ps (length val)
    → IsCut (start_positions op ps) true 0 (length (start_value op delimiter val))
started val assign delimiter none h = tt
started val assign delimiter (some ps) h = omega arith
started val colon delimiter none h = tt
started val colon delimiter (some ps) h = omega arith
started val plus_assign delimiter none h = tt
started [] plus_assign delimiter (some ps) h = h
started (c ∷ val) plus_assign delimiter (some ps) h =
    IsOrdered-le 0 ps (length (c ∷ val)) _ h (omega (arith, length-append val (delimiter ∷ [])))

-- If the positions of the former parts lie one behind the other within the former value, the
-- positions after `read_setting_value` returns lie so within the new value, for any text and
-- any operation.
pub read_setting_value-ArePlaced :
    (val : Text) (op : Operation) (delimiter line_num : ℕ) (ps : Option (List (ℕ × ℕ)))
    (text : Text)
    → ArePlaced ps (length val)
    → Holds
        (λ (r : Reading). ArePlaced r.part_positions (length r.setting_val))
        Any
        (read_setting_value val op delimiter line_num ps text)
unfolding read_setting_value
read_setting_value-ArePlaced val op delimiter line_num ps text h =
    let r = start_reading val op delimiter line_num ps text in
    bind-Holds (λ s. ok (end_part s))
      (read_loop-Holds {P = IsNoted} {Q = Any} step-IsNoted tt (length text) r.rest r refl
        (started val op delimiter ps h))
      (λ s k.
        returns
          (ended_placed s.setting_val s.part_start s.line_num s.rest s.part_positions s.new_part k))
