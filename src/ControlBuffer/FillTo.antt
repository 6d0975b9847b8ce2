-- ===== src/ControlBuffer/FillTo.antt =====
-- `fill_to` of cdinit/dinit/src/includes/cpbuffer.h: the loop, its ends and what it leaves.
use cdinit.Base.{
  ℕ, suc, ◌+◌, ◌≤◌, ◌<◌, ◌≡◌, ◌≢◌, refl, sym, ap, ◌∙◌, ltb, ◌==◌, true, false, Option, none, some,
  List, [], ◌∷◌, ◌++◌, length, arith, Bool-cases, Option-cases, inl, inr, min, append_assoc,
  append-nil,
}
use cdinit.ControlBuffer.{
  CpBuffer, Read, Outcome, filled, end_of_file, failed, unfinished, max_count, fill, fill_to,
}
use cdinit.ControlBuffer.Contents.{IsValid, contents}
use cdinit.ControlBuffer.Reading.{fill_failed, IsBounded, fill-contents, fill_length}

abbrev pub AllBounded : List Read → Type 0
AllBounded [] = Unit
AllBounded (read ∷ reads) = IsBounded read × AllBounded reads

suc_not_zero : (n : ℕ) → (suc n == 0) ≡ false
suc_not_zero n = ground arith

-- The loop has come to an end of its own, has only added bytes, and returns 1 exactly if the buffer
-- holds what was asked for.
pub record Ended (size rlength : ℕ) (b : CpBuffer) (end : Outcome × CpBuffer) : Type 0 where
  pub valid : IsValid size end.1
  pub grown : (extra : List ℕ) × (contents size end.1 ≡ contents size b ++ extra)
  pub finished : end.0 ≢ unfinished
  pub enough : end.0 ≡ filled → rlength ≤ end.1.length
  pub short : end.0 ≢ filled → end.1.length < rlength

module _ (size rlength : ℕ) where
  Ended-here :
      (b : CpBuffer) → IsValid size b → rlength ≤ b.length → Ended size rlength b (filled, b)
  Ended-here b v h = record {
    valid = v;
    grown = ([], sym (append-nil (contents size b)));
    finished = λ e. cc;
    enough = λ e. h;
    short = λ e. absurd (e refl);
  }

  fill_to-nil : (b : CpBuffer) → rlength ≤ b.length + 0 → fill_to size [] rlength b ≡ (filled, b)
  unfolding fill_to
  fill_to-nil b h = ground (arith, h)

  -- One round of the loop.
  module _ (read : Read) (reads : List Read) (b : CpBuffer) where
    fill_to-enough :
        ltb b.length rlength ≡ false → fill_to size (read ∷ reads) rlength b ≡ (filled, b)
    unfolding fill_to
    fill_to-enough e = rw (e, fill_to)

    fill_to-failed :
        ltb b.length rlength ≡ true
        → (fill size read b).0 ≡ none
        → fill_to size (read ∷ reads) rlength b ≡ (failed, (fill size read b).1)
    unfolding fill_to
    fill_to-failed e f = rw (e, f)

    fill_to-end :
        ltb b.length rlength ≡ true
        → (fill size read b).0 ≡ some 0
        → fill_to size (read ∷ reads) rlength b ≡ (end_of_file, (fill size read b).1)
    unfolding fill_to
    fill_to-end e f = rw (e, f)

    fill_to-more :
        (n : ℕ)
        → ltb b.length rlength ≡ true
        → (fill size read b).0 ≡ some (suc n)
        → fill_to size (read ∷ reads) rlength b ≡ fill_to size reads rlength (fill size read b).1
    unfolding fill_to
    fill_to-more n e f = rw (e, f, suc_not_zero n)

  abbrev Filled : CpBuffer → List ℕ → Option ℕ × CpBuffer → Type 0
  Filled b bytes (r, c) =
      (r ≡ some (length bytes))
      × IsValid size c
      × (contents size c ≡ contents size b ++ bytes)
      × (c.length ≡ b.length + length bytes)

  -- What one `fill` does, by what the read returns.
  module _ (read : Read) (b : CpBuffer) (v : IsValid size b) where
    count_of_fill : ℕ
    count_of_fill = min (max_count size b) (max_count size b)

    fill-none : read count_of_fill ≡ none → fill size read b ≡ (none, b)
    unfolding fill count_of_fill
    fill-none e = fill_failed size b v read (max_count size b) e

    fill-some :
        (bytes : List ℕ)
        → IsBounded read
        → read count_of_fill ≡ some bytes
        → let (r, c) = fill size read b in Filled b bytes (r, c)
    unfolding fill count_of_fill
    fill-some bytes h e =
        let (r, w, same) = fill-contents size b v read (max_count size b) bytes h e in
        (r, w, same, fill_length size b v read (max_count size b) bytes h e)

  fill_to-Ended_none :
      (read : Read) (reads : List Read) (b : CpBuffer) (v : IsValid size b)
      → ltb b.length rlength ≡ true
      → read (count_of_fill read b v) ≡ none
      → Ended size rlength b (fill_to size (read ∷ reads) rlength b)
  fill_to-Ended_none read reads b v e f =
      let r = fill-none read b v f in
      rw (fill_to-failed read reads b e (ap (λ k. k.0) r), r)
        (record {
          valid = v;
          grown = ([], sym (append-nil (contents size b)));
          finished = λ q. cc;
          enough = λ q. cc;
          short = λ q. ground (arith, e);
        })

  -- `fill_to` on a valid buffer, with as many reads as bytes are missing, each delivering
  -- no more than was asked, comes to an end of its own: the buffer stays valid, keeps its
  -- contents with bytes added behind, and holds the length asked for if the result is 1,
  -- and less if it is 0 or -1.
  pub fill_to-Ended :
      (reads : List Read) (b : CpBuffer)
      → IsValid size b
      → AllBounded reads
      → rlength ≤ b.length + length reads
      → Ended size rlength b (fill_to size reads rlength b)
  fill_to-Ended [] b v a h =
      rw (fill_to-nil b (omega (arith, h))) (Ended-here b v (omega (arith, h)))
  fill_to-Ended (read ∷ reads) b v a h = elim (Bool-cases (ltb b.length rlength)) [
    | inr e ↦ rw (fill_to-enough read reads b e) (Ended-here b v (ground (arith, e)))
    | inl e ↦ elim (Option-cases (read (count_of_fill read b v))) [
      | inl f ↦ fill_to-Ended_none read reads b v e f
      | inr (bytes, f) ↦
          next e bytes f (fill-some read b v bytes a.0 f) (λ c w m. fill_to-Ended reads c w a.1 m)
    ]
  ]
    where
      next :
          ltb b.length rlength ≡ true
          → (bytes : List ℕ) → read (count_of_fill read b v) ≡ some bytes
          → Filled b bytes (fill size read b)
          → ((c : CpBuffer)
              → IsValid size c
              → rlength ≤ c.length + length reads
              → Ended size rlength c (fill_to size reads rlength c))
          → Ended size rlength b (fill_to size (read ∷ reads) rlength b)
      next e [] f (r, w, same, n) ih = rw (fill_to-end read reads b e r) (record {
        valid = w;
        grown = ([], same);
        finished = λ q. cc;
        enough = λ q. cc;
        short = λ q. ground (arith, e, n);
      })
      next e (x ∷ bytes) f (r, w, same, n) ih =
          let end = ih (fill size read b).1 w (omega (arith, n, h)) in
          rw (fill_to-more read reads b (length bytes) e r) (record {
            valid = end.valid;
            grown =
                let (extra, eq) = end.grown in
                (
                  (x ∷ bytes) ++ extra,
                  eq ∙ ap (λ c. c ++ extra) same ∙ append_assoc (contents size b) (x ∷ bytes) extra,
                );
            finished = end.finished;
            enough = end.enough;
            short = end.short;
          })
