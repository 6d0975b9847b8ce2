-- ===== src/ControlBuffer/Contents.antt =====
-- cdinit/dinit/src/includes/cpbuffer.h as a queue of bytes.
use cdinit.Base.{ℕ, ◌+◌, ◌^◌, ◌≤◌, ◌<◌, ◌≡◌, ap, List, length, get_or, arith}
use cdinit.ControlBuffer.Bytes.{tabulate}
use cdinit.ControlBuffer.{CpBuffer, wrap, index}

pub record IsValid (size : ℕ) (b : CpBuffer) : Type 0 where
  pub storage : length b.buf ≡ size
  pub small : size ≤ 2 ^ 31
  pub inside : b.cur_idx < size
  pub fits : b.length ≤ size

module _ (size : ℕ) where
  -- The byte at a place of the buffer, counted from its start.
  abbrev pub byte_at : CpBuffer → ℕ → ℕ
  byte_at b i = get_or b.buf (wrap size (b.cur_idx + i)) 0

  -- The bytes of the buffer, oldest first.
  unfoldable pub contents : CpBuffer → List ℕ
  contents b = tabulate (byte_at b) b.length

  module _ (b : CpBuffer) (v : IsValid size b) where
    pub index_lem : (i : ℕ) → i ≤ size → index size b i ≡ byte_at b i
    unfolding index
    index_lem i h = ap (λ k. get_or b.buf (wrap size k) 0) {y = b.cur_idx + i} (omega arith)
