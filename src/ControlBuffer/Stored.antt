-- ===== src/ControlBuffer/Stored.antt =====
-- The array after `append` of cdinit/dinit/src/includes/cpbuffer.h, byte by byte.
use cdinit.Base.{
  ℕ, zero, ◌+◌, ◌-◌, ◌≤◌, ◌<◌, ◌≡◌, ◌∙◌, ltb, leb, if◌then◌else◌, true, ◌&&◌, List, length, get_or,
  take, drop, arith, length-take, length-drop, get_or-take, get_or-drop, Bool-cases, inl, inr,
}
use cdinit.ControlBuffer.Bytes.{write, length-write, get_or-write}
use cdinit.ControlBuffer.{CpBuffer, wrap}
use cdinit.ControlBuffer.Contents.{IsValid, byte_at}

module _ (size : ℕ) (b : CpBuffer) (v : IsValid size b) (s : List ℕ)
    (room : b.length + length s ≤ size) where
  unfoldable pub at : ℕ
  at = wrap size (b.cur_idx + b.length)

  unfoldable pub first : List ℕ
  first = write b.buf at (take (size - at) s)

  -- The array after `append`.
  unfoldable pub stored : List ℕ
  stored = if ltb (size - at) (length s) then write first 0 (drop (size - at) s) else first

  pub at-lt : at < size
  unfolding at
  at-lt = ground arith

  first_byte :
      (k : ℕ)
      → get_or first k 0 ≡ (
          if leb at k && ltb k (at + length (take (size - at) s))
          then get_or (take (size - at) s) (k - at) 0
          else get_or b.buf k 0)
  unfolding first
  first_byte k =
      get_or-write b.buf at (take (size - at) s) k
        (omega (arith, v.storage, at-lt, length-take (size - at) s))

  pub length-first : length first ≡ size
  unfolding first
  length-first = length-write b.buf at (take (size - at) s) ∙ v.storage

  stored_byte :
      (k : ℕ)
      → ltb (size - at) (length s) ≡ true
      → get_or stored k 0 ≡ (
          if ltb k (length (drop (size - at) s))
          then get_or (drop (size - at) s) k 0
          else get_or first k 0)
  unfolding stored
  stored_byte k e = ground (
    arith,
    e,
    get_or-write first zero (drop (size - at) s) k,
    length-first,
    length-drop (size - at) s,
    room,
    v.fits,
    at-lt,
  )

  pub kept : (i : ℕ) → i < b.length → get_or stored (wrap size (b.cur_idx + i)) 0 ≡ byte_at size b i
  unfolding at stored
  kept i h = elim (Bool-cases (ltb (size - at) (length s))) [
    | inl e ↦ ground (
      arith,
      e,
      v.inside,
      v.fits,
      v.small,
      room,
      stored_byte (wrap size (b.cur_idx + i)) e,
      first_byte (wrap size (b.cur_idx + i)),
      length-take (size - at) s,
      length-drop (size - at) s,
    )
    | inr e ↦
        rw (e, stored)
          (ground (
            arith,
            e,
            v.inside,
            v.fits,
            v.small,
            room,
            first_byte (wrap size (b.cur_idx + i)),
            length-take (size - at) s,
          ))
  ]

  pub added :
      (j : ℕ)
      → j < length s
      → get_or stored (wrap size (b.cur_idx + (b.length + j))) 0 ≡ get_or s j 0
  unfolding at stored
  added j h = elim (Bool-cases (ltb (size - at) (length s))) [
    | inl e ↦ ground (
      arith,
      e,
      v.inside,
      v.fits,
      v.small,
      room,
      stored_byte (wrap size (b.cur_idx + (b.length + j))) e,
      first_byte (wrap size (b.cur_idx + (b.length + j))),
      length-take (size - at) s,
      length-drop (size - at) s,
      get_or-take (size - at) s j,
      get_or-drop (size - at) s (j - (size - at)),
    )
    | inr e ↦
        rw (e, stored)
          (ground (
            arith,
            e,
            v.inside,
            v.fits,
            v.small,
            room,
            first_byte (wrap size (b.cur_idx + (b.length + j))),
            length-take (size - at) s,
            get_or-take (size - at) s j,
          ))
  ]
