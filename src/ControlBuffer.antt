-- ===== src/ControlBuffer.antt =====
-- cdinit/dinit/src/includes/cpbuffer.h: `cpbuffer<SIZE>`, the circular buffer of a control connection.
--
-- Bytes are numbers. A pointer into `buf` is its offset. `unsigned` arithmetic is modulo 2 ^ 32.
pub mod Bytes
pub mod Contents
pub mod Stored
pub mod Queue
pub mod Reading
pub mod FillTo
mod Tests
use cdinit.Base.{
  ℕ, zero, suc, ◌+◌, ◌-◌, ◌%◌, ◌^◌, ◌==◌, ltb, leb, if◌then◌else◌, Bool, true, false, Option, none,
  some, List, [], ◌∷◌, ◌++◌, length, get_or, take, drop, min, max,
}
use Bytes.{write, slice}

pub record CpBuffer : Type 0 where
  pub buf : List ℕ
  pub cur_idx : ℕ
  pub length : ℕ

-- `unsigned` addition and subtraction.
abbrev pub add32 : ℕ → ℕ → ℕ
add32 a b = (a + b) % 2 ^ 32

abbrev pub sub32 : ℕ → ℕ → ℕ
sub32 a b = (a + 2 ^ 32 - b) % 2 ^ 32

-- What a call of `read` with that limit delivers: bytes, or an error.
abbrev pub Read : Type 0
Read = ℕ → Option (List ℕ)

-- How `fill_to` ends: with 1, 0 or -1; or the list of the reads to come was too short for the model.
pub data Outcome : Type 0 where
  filled end_of_file failed unfinished : Outcome

module _ (size : ℕ) where
  -- `if (pos >= SIZE) pos -= SIZE`
  abbrev pub wrap : ℕ → ℕ
  wrap pos = if leb size pos then pos - size else pos

  unfoldable pub get_length : CpBuffer → ℕ
  get_length b = b.length

  unfoldable pub get_free : CpBuffer → ℕ
  get_free b = sub32 size b.length

  unfoldable pub get_ptr : CpBuffer → ℕ → ℕ
  get_ptr b index = wrap (add32 b.cur_idx index)

  unfoldable pub get_contiguous_length : CpBuffer → ℕ → ℕ
  get_contiguous_length b ptr =
      let eidx = wrap (add32 b.cur_idx b.length) in
      if b.length == 0 then 0 else (if ltb ptr eidx then eidx - ptr else size - ptr)

  -- The number of bytes that a `fill` asks for.
  unfoldable pub max_count : CpBuffer → ℕ
  max_count b = min (sub32 size (wrap (add32 b.cur_idx b.length))) (sub32 size b.length)

  -- `fill(fd, limit)`; `none` is the return value -1.
  unfoldable pub fill_limited : Read → ℕ → CpBuffer → Option ℕ × CpBuffer
  fill_limited read limit b = elim (read (min (max_count b) limit)) [
    | none ↦ (none, b)
    | some bytes ↦ (
      some (length bytes),
      record b {
        buf = write b.buf (wrap (add32 b.cur_idx b.length)) bytes;
        length = add32 b.length (length bytes);
      },
    )
  ]

  -- `fill(fd)`
  unfoldable pub fill : Read → CpBuffer → Option ℕ × CpBuffer
  fill read b = fill_limited read (max_count b) b

  unfoldable pub fill_to : List Read → ℕ → CpBuffer → Outcome × CpBuffer
  fill_to [] rlength b = if ltb b.length rlength then (unfinished, b) else (filled, b)
  fill_to (read ∷ reads) rlength b =
      let rest = λ (c : CpBuffer). fill_to reads rlength c in
      let more = λ (n : ℕ) (c : CpBuffer). if n == 0 then (end_of_file, c) else rest c in
      let (r, c) = fill read b in
      let next : Outcome × CpBuffer = elim r [ none ↦ (failed, c) | some n ↦ more n c ] in
      if ltb b.length rlength then next else (filled, b)

  unfoldable pub trim_to : ℕ → CpBuffer → CpBuffer
  trim_to new_length b = record b { length = new_length }

  -- `operator[]`
  unfoldable pub index : CpBuffer → ℕ → ℕ
  index b idx = get_or b.buf (wrap (add32 b.cur_idx idx)) 0

  unfoldable pub consume : ℕ → CpBuffer → CpBuffer
  consume amount b = record b {
    cur_idx = wrap (add32 b.cur_idx amount);
    length = sub32 b.length amount;
  }

  -- `extract`, and `extract_string`, which makes the same two copies.
  unfoldable pub extract : CpBuffer → ℕ → ℕ → List ℕ
  extract b start len =
      let index = wrap (add32 start b.cur_idx) in
      let half = size - index in
      if ltb size (add32 index len)
      then slice b.buf index half ++ slice b.buf 0 (len - half)
      else slice b.buf index len

  unfoldable pub append : CpBuffer → List ℕ → CpBuffer
  append b s =
      let index = wrap (add32 b.cur_idx b.length) in
      let max = size - index in
      let first = write b.buf index (take max s) in
      record b {
        buf = if ltb max (length s) then write first 0 (drop max s) else first;
        length = add32 b.length (length s);
      }

  unfoldable pub reset : CpBuffer → CpBuffer
  reset b = record b { cur_idx = 0; length = 0 }
