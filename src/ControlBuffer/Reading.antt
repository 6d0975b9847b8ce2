-- ===== src/ControlBuffer/Reading.antt =====
-- `fill` and `fill_to` of cdinit/dinit/src/includes/cpbuffer.h.
use cdinit.Base.{
  ℕ, zero, suc, ◌+◌, ◌-◌, ◌≤◌, ◌≡◌, refl, ap, none, some, List, [], ◌∷◌, ◌++◌, length, take, arith,
  min,
}
use cdinit.ControlBuffer.{CpBuffer, Read, add32, wrap, max_count, fill_limited, append}
use cdinit.ControlBuffer.Contents.{IsValid, contents}
use cdinit.ControlBuffer.Queue.{append-contents, append_length}

-- `read` delivers no more than it was asked for.
abbrev pub IsBounded : Read → Type 0
IsBounded read = (n : ℕ) (bytes : List ℕ) → read n ≡ some bytes → length bytes ≤ n

take_all : (n : ℕ) (s : List ℕ) → length s ≤ n → take n s ≡ s
take_all zero [] h = refl
take_all zero (x ∷ s) h = absurd (omega arith)
take_all (suc n) [] h = refl
take_all (suc n) (x ∷ s) h = ap (◌∷◌ x) (take_all n s (omega arith))

module _ (size : ℕ) (b : CpBuffer) (v : IsValid size b) where
  -- What `fill` asks for fits without going round the end.
  max_count_fits :
      (max_count size b + b.length ≤ size)
      × (max_count size b ≤ size - wrap size (add32 b.cur_idx b.length))
  unfolding max_count
  max_count_fits =
      (ground (arith, v.inside, v.fits, v.small), ground (arith, v.inside, v.fits, v.small))

  fill_append :
      (read : Read) (limit : ℕ) (bytes : List ℕ)
      → read (min (max_count size b) limit) ≡ some bytes
      → length bytes ≤ max_count size b
      → fill_limited size read limit b ≡ (some (length bytes), append size b bytes)
  unfolding fill_limited append
  fill_append read limit bytes e h =
      rw (e, fill_limited)
        (ground
          (arith, max_count_fits, h, take_all (size - wrap size (add32 b.cur_idx b.length)) bytes))

  -- On a valid buffer, `fill` with a limit, whose read delivers bytes and no more than
  -- asked for, returns their number and leaves a valid buffer with the bytes behind its
  -- contents.
  pub fill-contents :
      (read : Read) (limit : ℕ) (bytes : List ℕ)
      → IsBounded read
      → read (min (max_count size b) limit) ≡ some bytes
      → let (r, c) = fill_limited size read limit b in
        (r ≡ some (length bytes)) × IsValid size c × (contents size c ≡ contents size b ++ bytes)
  fill-contents read limit bytes bounded e =
      let small = bounded (min (max_count size b) limit) bytes e in
      let (valid, same) = append-contents size b v bytes (omega (arith, small, max_count_fits)) in
      rw (fill_append read limit bytes e (omega (arith, small))) (refl, valid, same)

  pub fill_length :
      (read : Read) (limit : ℕ) (bytes : List ℕ)
      → IsBounded read
      → read (min (max_count size b) limit) ≡ some bytes
      → (fill_limited size read limit b).1.length ≡ b.length + length bytes
  fill_length read limit bytes bounded e =
      let small = bounded (min (max_count size b) limit) bytes e in
      rw (fill_append read limit bytes e (omega (arith, small)))
        (append_length size b v bytes (omega (arith, small, max_count_fits)))

  pub fill_failed :
      (read : Read) (limit : ℕ)
      → read (min (max_count size b) limit) ≡ none
      → fill_limited size read limit b ≡ (none, b)
  unfolding fill_limited
  fill_failed read limit e = rw (e, fill_limited)
