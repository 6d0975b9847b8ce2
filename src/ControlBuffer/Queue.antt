-- ===== src/ControlBuffer/Queue.antt =====
-- cdinit/dinit/src/includes/cpbuffer.h as a queue of bytes.
use cdinit.Base.{
  ℕ, ◌+◌, ◌-◌, ◌≤◌, ◌<◌, ◌≡◌, sym, ap, ap₂, ◌∙◌, ltb, if◌then◌else◌, List, ◌++◌, length, get_or,
  take, drop, arith, Bool-cases, inl, inr,
}
use cdinit.ControlBuffer.Bytes.{
  write, slice, tabulate, length-write, tabulate-congr, tabulate-append, tabulate_split,
  drop-tabulate, take-tabulate, slice-tabulate,
}
use cdinit.ControlBuffer.{CpBuffer, add32, sub32, wrap, consume, append, extract, index}
use cdinit.ControlBuffer.Contents.{IsValid, byte_at, contents}
use cdinit.ControlBuffer.Stored.{at, stored, first, kept, added, length-first}

module _ (size : ℕ) (b : CpBuffer) (v : IsValid size b) where
  append-stored :
      (s : List ℕ) (room : b.length + length s ≤ size)
      → append size b s ≡ record b { buf = stored size b v s room; length = b.length + length s }
  unfolding append stored first at
  append-stored s room =
      ap₂
        (λ index n. record b {
          buf =
              if ltb (size - wrap size index) (length s)
              then write (write b.buf (wrap size index) (take (size - wrap size index) s)) 0
                  (drop (size - wrap size index) s)
              else write b.buf (wrap size index) (take (size - wrap size index) s);
          length = n;
        })
        {x = add32 b.cur_idx b.length} {y = b.cur_idx + b.length} {u = add32 b.length (length s)}
        {v = b.length + length s} (omega (arith, v.inside, v.fits, v.small))
        (omega (arith, v.small))

  length-stored :
      (s : List ℕ) (room : b.length + length s ≤ size) → length (stored size b v s room) ≡ size
  unfolding stored
  length-stored s room = ground (
    arith,
    length-first size b v s room,
    length-write (first size b v s room) 0 (drop (size - at size b v s room) s),
  )

  -- On a valid buffer with room for the bytes, `append` leaves a valid buffer with the
  -- bytes behind its contents.
  pub append-contents :
      (s : List ℕ)
      → b.length + length s ≤ size
      → IsValid size (append size b s) × (contents size (append size b s) ≡ contents size b ++ s)
  unfolding contents
  append-contents s room = rw (append-stored s room) (
    record { storage = length-stored s room; small = v.small; inside = v.inside; fits = room },
    tabulate-append _ b.length s (added size b v s room)
        ∙ ap (λ xs. xs ++ s) (tabulate-congr _ (byte_at size b) b.length (kept size b v s room)),
  )

  consumed :
      (amount : ℕ)
      → amount ≤ b.length
      → consume size amount b
        ≡ record b { cur_idx = wrap size (b.cur_idx + amount); length = b.length - amount }
  unfolding consume
  consumed amount h =
      ap₂ (λ index n. record b { cur_idx = wrap size index; length = n })
        {x = add32 b.cur_idx amount} {y = b.cur_idx + amount} {u = sub32 b.length amount}
        {v = b.length - amount} (omega (arith, v.inside, v.fits, v.small))
        (omega (arith, v.fits, v.small))

  -- The bytes of a part of the contents.
  part :
      (start len : ℕ)
      → start + len ≤ b.length
      → take len (drop start (contents size b)) ≡ tabulate (λ i. byte_at size b (start + i)) len
  unfolding contents
  part start len h =
      ap (λ k. take len (drop start (tabulate (byte_at size b) k))) {x = b.length}
        {y = start + (len + (b.length - start - len))} (omega arith)
      ∙ ap (take len) (drop-tabulate (byte_at size b) start (len + (b.length - start - len)))
      ∙ take-tabulate (λ i. byte_at size b (start + i)) len (b.length - start - len)

  -- On a valid buffer, `consume` of no more than it holds leaves a valid buffer, whose
  -- contents lack that many bytes at the front.
  pub consume-contents :
      (amount : ℕ)
      → amount ≤ b.length
      → IsValid size (consume size amount b)
        × (contents size (consume size amount b) ≡ drop amount (contents size b))
  unfolding contents
  consume-contents amount h = rw (consumed amount h) (
    record {
      storage = v.storage;
      small = v.small;
      inside = ground (arith, v.inside, v.fits, h);
      fits = omega (arith, v.fits);
    },
    tabulate-congr _ (λ i. byte_at size b (amount + i)) (b.length - amount)
          (λ i lt. ap (λ k. get_or b.buf k 0) (ground (arith, v.inside, v.fits, h)))
        ∙ sym (drop-tabulate (byte_at size b) amount (b.length - amount))
        ∙ ap (λ k. drop amount (tabulate (byte_at size b) k)) {x = amount + (b.length - amount)}
            {y = b.length} (omega arith),
  )

  -- The copy that `extract` makes, from an offset into the array.
  copy : ℕ → ℕ → ℕ → List ℕ
  copy index end len =
      if ltb size end
      then slice b.buf index (size - index) ++ slice b.buf 0 (len - (size - index))
      else slice b.buf index len

  extract-copy :
      (start len : ℕ)
      → start + len ≤ b.length
      → extract size b start len
        ≡ copy (wrap size (b.cur_idx + start)) (wrap size (b.cur_idx + start) + len) len
  unfolding extract copy
  extract-copy start len h =
      ap₂ (λ index end. copy index end len) {x = wrap size (add32 start b.cur_idx)}
        {y = wrap size (b.cur_idx + start)} {u = add32 (wrap size (add32 start b.cur_idx)) len}
        {v = wrap size (b.cur_idx + start) + len} (ground (arith, v.inside, v.fits, v.small, h))
        (ground (arith, v.inside, v.fits, v.small, h))

  from : ℕ → ℕ
  from start = wrap size (b.cur_idx + start)

  -- `extract` in one copy, and in two.
  straight :
      (start len : ℕ)
      → start + len ≤ b.length
      → from start + len ≤ size
      → slice b.buf (from start) len ≡ tabulate (λ i. byte_at size b (start + i)) len
  unfolding from
  straight start len h k =
      slice-tabulate b.buf (from start) len (omega (arith, v.storage, k))
      ∙ tabulate-congr _ (λ i. byte_at size b (start + i)) len
          (λ i lt. ap (λ j. get_or b.buf j 0) (ground (arith, v.inside, v.fits, h, k)))

  wrapped :
      (start len : ℕ)
      → start + len ≤ b.length
      → size < from start + len
      → slice b.buf (from start) (size - from start) ++ slice b.buf 0 (len - (size - from start))
        ≡ tabulate (λ i. byte_at size b (start + i)) len
  unfolding from
  wrapped start len h k =
      let half = size - from start in
      let g = λ (i : ℕ). byte_at size b (start + i) in
      ap₂ ◌++◌
        (slice-tabulate b.buf (from start) half (ground (arith, v.storage, v.inside, v.fits, h))
          ∙ tabulate-congr _ g half
              (λ i lt. ap (λ j. get_or b.buf j 0) (ground (arith, v.inside, v.fits, h, k))))
        (slice-tabulate b.buf 0 (len - half) (ground (arith, v.storage, v.inside, v.fits, h, k))
          ∙ tabulate-congr _ (λ i. g (half + i)) (len - half)
              (λ i lt. ap (λ j. get_or b.buf j 0) (ground (arith, v.inside, v.fits, h, k))))
      ∙ sym (tabulate_split g half (len - half))
      ∙ ap (tabulate g) {x = half + (len - half)} {y = len} (ground (arith, v.inside, v.fits, h, k))

  copy-tabulate :
      (start len : ℕ)
      → start + len ≤ b.length
      → copy (from start) (from start + len) len ≡ tabulate (λ i. byte_at size b (start + i)) len
  unfolding copy
  copy-tabulate start len h = elim (Bool-cases (ltb size (from start + len))) [
    | inl e ↦ rw (e, copy) (wrapped start len h (ground (arith, e)))
    | inr e ↦ rw (e, copy) (straight start len h (ground (arith, e)))
  ]

  -- On a valid buffer, `extract` of a range inside the contents returns that range of the
  -- contents.
  pub extract-contents :
      (start len : ℕ)
      → start + len ≤ b.length
      → extract size b start len ≡ take len (drop start (contents size b))
  unfolding from
  extract-contents start len h =
      extract-copy start len h ∙ copy-tabulate start len h ∙ sym (part start len h)

  pub append_length :
      (s : List ℕ) → b.length + length s ≤ size → (append size b s).length ≡ b.length + length s
  append_length s room = ap (λ (c : CpBuffer). c.length) (append-stored s room)
