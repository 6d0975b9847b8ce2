-- ===== src/Utilities.antt =====
-- Helpers of cdinit/dinit/src/includes/dinit-util.h on text: decimal numbers and paths.
--
-- Text is a list of bytes.
pub mod Digits
pub mod Paths
mod Tests
use cdinit.Base.{ℕ, List}

abbrev pub Text : Type 0
Text = List ℕ
