-- ===== src/IdList/Parser/Offsets.antt =====
-- The end offsets of the decoded lines, at which a later run resumes the download.
use mathlib.Core.Logic.{inl, inr}
use statsig_forward_proxy.Prelude.{
  ℕ, suc, ◌+◌, ◌-◌, ◌≡◌, ◌<◌, ◌∙◌, refl, ap, subst, Option, List, [], ◌∷◌, ◌++◌, ◌⊎◌, arith, ◌==◌,
  length, length-append, drop, Bool-cases,
}
use statsig_forward_proxy.IdList.Parser.Decoder.{
  Bytes, InvalidFile, FileChange, DecodedLine, CompleteLineDecoder, new, Decoded, with_line,
  line_change, strip_cr, decode_from, push,
}

-- Each line ends behind `start`, and a decoder that starts at its end offset, on the bytes from
-- there, gives the lines behind it and the same rest.
abbrev pub Resumes : ℕ → Bytes → CompleteLineDecoder → List DecodedLine → Type 0
Resumes start bytes final [] = Unit
Resumes start bytes final (l ∷ ls) =
    (start < l.end_offset)
    × (decode_from l.end_offset [] (drop (l.end_offset - start) bytes) ≡ inr (ls, final))
    × Resumes start bytes final ls

abbrev ResumesResult : ℕ → Bytes → Decoded → Type 0
ResumesResult start bytes (inl e) = Unit
ResumesResult start bytes (inr (ds, d)) = Resumes start bytes d ds

drop_later :
    (start e b : ℕ) (bs : Bytes)
    → suc start < e
    → drop (e - start) (b ∷ bs) ≡ drop (e - suc start) bs
drop_later start e b bs h =
    let step : e - start ≡ suc (e - suc start) = omega arith in ap (λ n. drop n (b ∷ bs)) step

Resumes-later :
    (start b : ℕ) (bs : Bytes) (final : CompleteLineDecoder) (ls : List DecodedLine)
    → Resumes (suc start) bs final ls
    → Resumes start (b ∷ bs) final ls
Resumes-later start b bs final [] h = tt
Resumes-later start b bs final (l ∷ ls) (later, there, rest) = (
  omega arith,
  ap (decode_from l.end_offset []) (drop_later start l.end_offset b bs later) ∙ there,
  Resumes-later start b bs final ls rest,
)

result-later :
    (start b : ℕ) (bs : Bytes) (r : Decoded)
    → ResumesResult (suc start) bs r
    → ResumesResult start (b ∷ bs) r
result-later start b bs (inl e) h = tt
result-later start b bs (inr (ds, d)) h = Resumes-later start b bs d ds h

result-with_line :
    (start b : ℕ) (bs : Bytes) (c : InvalidFile ⊎ Option FileChange) (r : Decoded)
    → decode_from (suc start) [] bs ≡ r
    → ResumesResult (suc start) bs r
    → ResumesResult start (b ∷ bs) (with_line (suc start) c r)
result-with_line start b bs (inl e) r h k = tt
result-with_line start b bs (inr c) (inl e) h k = tt
result-with_line start b bs (inr c) (inr (ds, d)) h k =
    let step : suc start - start ≡ 1 = omega arith in
    (
      omega arith,
      ap (λ n. decode_from (suc start) [] (drop n (b ∷ bs))) step ∙ h,
      Resumes-later start b bs d ds k,
    )

decode-Resumes :
    (cursor : ℕ) (line bs : Bytes) (start : ℕ)
    → start ≡ cursor + length line
    → ResumesResult start bs (decode_from cursor line bs)
unfolding decode_from
decode-Resumes cursor line [] start h = tt
decode-Resumes cursor line (b ∷ bs) start h = elim (Bool-cases (b == b'\n')) [
  | inl e ↦
      let step : suc start ≡ cursor + length line + 1 = omega arith in
      rw (decode_from, e)
        (subst
          (λ n.
            ResumesResult start (b ∷ bs)
              (with_line n (line_change (strip_cr line)) (decode_from n [] bs)))
          step
          (result-with_line start b bs (line_change (strip_cr line)) (decode_from (suc start) [] bs)
            refl (decode-Resumes (suc start) [] bs (suc start) (omega arith))))
  | inr e ↦
      rw (decode_from, e)
        (result-later start b bs (decode_from cursor (line ++ (b ∷ [])) bs) (
          decode-Resumes cursor (line ++ (b ∷ [])) bs (suc start)
            (omega (arith, length-append line (b ∷ [])))))
]

-- A download that starts at `start` can be resumed behind every decoded line: the line ends after
-- `start`, and a new decoder at its end offset, fed with the bytes from there, gives the lines
-- that follow and ends in the same state.
pub push-new-Resumes :
    (start : ℕ) (bytes : Bytes) (ds : List DecodedLine) (final : CompleteLineDecoder)
    → push (new start) bytes ≡ inr (ds, final)
    → Resumes start bytes final ds
unfolding push
push-new-Resumes start bytes ds final h =
    subst (ResumesResult start bytes) h (decode-Resumes start [] bytes start (omega arith))
