-- ===== src/ControlBuffer/Tests.antt =====
-- The theorems on `cpbuffer` of cdinit/dinit/src/includes/cpbuffer.h at a buffer of four bytes, whose
-- contents 8, 9 go round the end.
use cdinit.Base.{zero, suc, ◌≡◌, refl, some, [], ◌∷◌, ◌++◌, arith, take, drop}
use cdinit.ControlBuffer.{CpBuffer, Read, append, extract, fill_limited, fill_to, max_count}
use cdinit.ControlBuffer.Contents.{IsValid, contents}
use cdinit.ControlBuffer.Queue.{append-contents, extract-contents}
use cdinit.ControlBuffer.Reading.{IsBounded, fill-contents}
use cdinit.ControlBuffer.FillTo.{Ended, fill_to-Ended}

abbrev buffer : CpBuffer
buffer = record { buf = 9 ∷ 0 ∷ 0 ∷ 8 ∷ []; cur_idx = 3; length = 2 }

buffer-IsValid : IsValid 4 buffer
buffer-IsValid = record {
  storage = refl;
  small = omega arith;
  inside = omega arith;
  fits = omega arith;
}

append-contents_example :
    IsValid 4 (append 4 buffer (1 ∷ 2 ∷ []))
    × (contents 4 (append 4 buffer (1 ∷ 2 ∷ [])) ≡ contents 4 buffer ++ (1 ∷ 2 ∷ []))
append-contents_example = append-contents 4 buffer buffer-IsValid (1 ∷ 2 ∷ []) (omega arith)

extract-contents_example : extract 4 buffer 0 2 ≡ take 2 (drop 0 (contents 4 buffer))
extract-contents_example = extract-contents 4 buffer buffer-IsValid 0 2 (omega arith)

-- A descriptor that delivers one byte, or none if none is asked for.
abbrev byte : Read
byte zero = some []
byte (suc n) = some (7 ∷ [])

byte-IsBounded : IsBounded byte
byte-IsBounded zero bytes e = ground (arith, e)
byte-IsBounded (suc n) bytes e = ground (arith, e)

fill-contents_example :
    let (r, c) = fill_limited 4 byte 3 buffer in
    (r ≡ some 1) × IsValid 4 c × (contents 4 c ≡ contents 4 buffer ++ (7 ∷ []))
unfolding max_count
fill-contents_example = fill-contents 4 buffer buffer-IsValid byte 3 (7 ∷ []) byte-IsBounded refl

fill_to-Ended_example : Ended 4 4 buffer (fill_to 4 (byte ∷ byte ∷ []) 4 buffer)
fill_to-Ended_example =
    fill_to-Ended 4 4 (byte ∷ byte ∷ []) buffer buffer-IsValid
      (byte-IsBounded, (byte-IsBounded, tt)) (omega arith)
