-- ===== src/IdList/Parser/Chunks.antt =====
-- How the decoder treats the borders of the chunks, which the network sets.
use mathlib.Core.Logic.{inl, inr}
use statsig_forward_proxy.Prelude.{
  ℕ, ◌+◌, ◌≡◌, ◌∙◌, refl, sym, ap, false, Option, List, [], ◌∷◌, ◌++◌, ◌⊎◌, ◌==◌, length, All,
  All-append, Bool-cases,
}
use statsig_forward_proxy.IdList.Parser.Decoder.{
  Bytes, InvalidFile, FileChange, DecodedLine, CompleteLineDecoder, Decoded, with_line, line_change,
  strip_cr, decode_from, push,
}

-- The bytes have no newline.
abbrev pub NoNewline : Bytes → Type 0
NoNewline = All (λ b. (b == b'\n') ≡ false)

-- Lines decoded before in front of those decoded now.
abbrev pub prepend : List DecodedLine → Decoded → Decoded
prepend ds (inl e) = inl e
prepend ds (inr (es, d)) = inr (ds ++ es, d)

abbrev pub and_then : Decoded → (CompleteLineDecoder → Decoded) → Decoded
and_then (inl e) next = inl e
and_then (inr (ds, d)) next = prepend ds (next d)

-- One chunk after another, up to the first error.
unfoldable pub push_all : CompleteLineDecoder → List Bytes → Decoded
unfolding push
push_all d [] = inr ([], d)
push_all d (chunk ∷ chunks) = and_then (push d chunk) (λ d'. push_all d' chunks)

abbrev pub concat : List Bytes → Bytes
concat [] = []
concat (c ∷ cs) = c ++ concat cs

prepend_nil : (r : Decoded) → prepend [] r ≡ r
prepend_nil (inl e) = refl
prepend_nil (inr (es, d)) = refl

append_assoc : (xs ys zs : Bytes) → (xs ++ ys) ++ zs ≡ xs ++ (ys ++ zs)
append_assoc [] ys zs = refl
append_assoc (x ∷ xs) ys zs = ap (λ l. x ∷ l) (append_assoc xs ys zs)

append_nil : (xs : Bytes) → xs ++ [] ≡ xs
append_nil [] = refl
append_nil (x ∷ xs) = ap (λ l. x ∷ l) (append_nil xs)

-- Bytes without a newline only make the pending line longer.
decode-pending :
    (cursor : ℕ) (line more rest : Bytes)
    → NoNewline more
    → decode_from cursor line (more ++ rest) ≡ decode_from cursor (line ++ more) rest
unfolding decode_from
decode-pending cursor line [] rest h = ap (λ l. decode_from cursor l rest) (sym (append_nil line))
decode-pending cursor line (b ∷ bs) rest h =
    rw (decode_from, h.0)
      (decode-pending cursor (line ++ (b ∷ [])) bs rest h.1
        ∙ ap (λ l. decode_from cursor l rest) (append_assoc line (b ∷ []) bs))

-- What remains of a result when more bytes come.
abbrev resume : Decoded → Bytes → Decoded
resume (inl e) more = inl e
resume (inr (ds, d)) more = prepend ds (decode_from d.next_offset d.pending more)

resume-with_line :
    (n : ℕ) (c : InvalidFile ⊎ Option FileChange) (r : Decoded) (more : Bytes)
    → resume (with_line n c r) more ≡ with_line n c (resume r more)
resume-with_line n (inl e) r more = refl
resume-with_line n (inr c) (inl e) more = refl
resume-with_line n (inr c) (inr (ds, d)) more = go (decode_from d.next_offset d.pending more)
  where
    go :
        (s : Decoded)
        → prepend (record { change = c; end_offset = n } ∷ ds) s
          ≡ with_line n (inr c) (prepend ds s)
    go (inl e) = refl
    go (inr (es, d')) = refl

decode-append :
    (cursor : ℕ) (line bs more : Bytes)
    → decode_from cursor line (bs ++ more) ≡ resume (decode_from cursor line bs) more
unfolding decode_from
decode-append cursor line [] more = sym (prepend_nil (decode_from cursor line more))
decode-append cursor line (b ∷ bs) more = elim (Bool-cases (b == b'\n')) [
  | inl e ↦
      rw (decode_from, e)
        (ap (with_line (cursor + length line + 1) (line_change (strip_cr line)))
            (decode-append (cursor + length line + 1) [] bs more)
          ∙ sym (
              resume-with_line (cursor + length line + 1) (line_change (strip_cr line))
                (decode_from (cursor + length line + 1) [] bs) more))
  | inr e ↦ rw (decode_from, e) (decode-append cursor (line ++ (b ∷ [])) bs more)
]

-- The pending bytes never hold a newline.
abbrev Pending : Decoded → Type 0
Pending (inl e) = Unit
Pending (inr (ds, d)) = NoNewline d.pending

Pending-with_line :
    (n : ℕ) (c : InvalidFile ⊎ Option FileChange) (r : Decoded)
    → Pending r
    → Pending (with_line n c r)
Pending-with_line n (inl e) r h = tt
Pending-with_line n (inr c) (inl e) h = tt
Pending-with_line n (inr c) (inr (ds, d)) h = h

decode-Pending :
    (cursor : ℕ) (line bs : Bytes) → NoNewline line → Pending (decode_from cursor line bs)
unfolding decode_from
decode-Pending cursor line [] h = h
decode-Pending cursor line (b ∷ bs) h = elim (Bool-cases (b == b'\n')) [
  | inl e ↦
      rw (decode_from, e)
        (Pending-with_line (cursor + length line + 1) (line_change (strip_cr line))
          (decode_from (cursor + length line + 1) [] bs)
          (decode-Pending (cursor + length line + 1) [] bs tt))
  | inr e ↦
      rw (decode_from, e)
        (decode-Pending cursor (line ++ (b ∷ [])) bs (All-append _ line (b ∷ []) h (e, tt)))
]

push-pending :
    (d : CompleteLineDecoder) (chunk : Bytes)
    → NoNewline d.pending
    → push d chunk ≡ decode_from d.next_offset d.pending chunk
unfolding push
push-pending d chunk h = decode-pending d.next_offset [] d.pending chunk h

resume-and_then :
    (r : Decoded) (cs : List Bytes)
    → Pending r
    → ((d : CompleteLineDecoder) → NoNewline d.pending → push_all d cs ≡ push d (concat cs))
    → resume r (concat cs) ≡ and_then r (λ d. push_all d cs)
resume-and_then (inl e) cs h ih = refl
resume-and_then (inr (ds, d)) cs h ih =
    ap (prepend ds) (sym (push-pending d (concat cs) h) ∙ sym (ih d h))

-- The chunks do not matter: fed with a file in pieces, the decoder gives the same lines, with the
-- same offsets, the same pending bytes and the same first error as fed with the whole, if its
-- pending bytes have no newline, as from `new` and after every `push`.
pub push_all-concat :
    (d : CompleteLineDecoder) (chunks : List Bytes)
    → NoNewline d.pending
    → push_all d chunks ≡ push d (concat chunks)
unfolding push_all
push_all-concat d [] h = sym (push-pending d [] h)
push_all-concat d (c ∷ cs) h = sym (
    push-pending d (c ++ concat cs) h
    ∙ (decode-append d.next_offset d.pending c (concat cs)
        ∙ resume-and_then (decode_from d.next_offset d.pending c) cs
            (decode-Pending d.next_offset d.pending c h) (λ d' h'. push_all-concat d' cs h')
        ∙ ap (λ r. and_then r (λ d'. push_all d' cs)) (sym (push-pending d c h))))
