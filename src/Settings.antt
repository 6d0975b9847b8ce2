-- ===== src/Settings.antt =====
-- The reading of service descriptions: the functions on text of
-- cdinit/dinit/src/includes/load-service.h.
--
-- Text is a list of bytes. An iterator is the text from it to the end, so `end` is `[]`.
pub mod Chars
pub mod Value
pub mod Input
pub mod Lines
pub mod Numbers
mod Tests
use cdinit.Base.{ℕ, List, Option}

abbrev pub Text : Type 0
Text = List ℕ

-- What ends a reading: the exceptions, by what their messages say. `past_end` is a read behind the
-- end of the text, which the code does not test for; `out_of_fuel` belongs to the model.
pub data Error : Type 0 where
  unterminated_quote hashmark past_end out_of_fuel : Error
  end_of_file_after_backslash missing_indent : Error
  bad_meta_command badly_formed_line : Error
  bad_value too_large : Error

pub data Result {ℓ} (A : Type ℓ) : Type ℓ where
  ok : A → Result A
  err : Error → Result A

infixl 5 ◌>>=◌
abbrev pub ◌>>=◌ {ℓ κ} : {A : Type ℓ} {B : Type κ} → Result A → (A → Result B) → Result B
ok a >>= f = f a
err e >>= f = err e
