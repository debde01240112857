-- ===== src/Store/Deltas/Assemble.antt =====
-- `assemble_envelopes_in_delta_order`, and the order of the envelopes in the payload that it writes.
use mathlib.Core.Logic.{inl, inr}
use statsig_forward_proxy.Prelude.{
  ◌≡◌, ◌∙◌, refl, ap, sym, Bool, not, ◌||◌, ◌&&◌, Option, none, some, List, [], ◌∷◌, ◌++◌, arith,
  ◌==◌, if◌then◌else◌, retain, Bool-cases, Option-cases,
}
use mathlib.Core.List.{append-nil, append_assoc}
use statsig_forward_proxy.Store.{Bytes}
use statsig_forward_proxy.Store.Deltas.Codec.{Codec, is_meta_envelope}
use statsig_forward_proxy.Store.Deltas.Cache.{Entry}

module _ (c : Codec) where
  open c use {SpecsEnvelope, kind, done, checksums, encode_length_delimited}

  -- The three filters of `assemble_envelopes_in_delta_order`.
  abbrev pub is_control : SpecsEnvelope → Bool
  is_control e = is_meta_envelope c (kind e) && (not (kind e == checksums) && not (kind e == done))

  abbrev pub is_body : SpecsEnvelope → Bool
  is_body e = not (is_meta_envelope c (kind e))

  abbrev pub is_closing : SpecsEnvelope → Bool
  is_closing e = kind e == checksums || kind e == done

  -- A loop that writes the envelopes that pass the filter after `payload`; `?` leaves it.
  unfoldable pub write_envelopes :
      (SpecsEnvelope → Bool) → Bytes → List SpecsEnvelope → Option Bytes
  write_envelopes keep payload [] = some payload
  write_envelopes keep payload (e ∷ es) =
      let skipped = write_envelopes keep payload es in
      if keep e
      then elim (encode_length_delimited e) [
        | none ↦ none
        | some bytes ↦ write_envelopes keep (payload ++ bytes) es
      ]
      else skipped

  unfoldable pub write_bodies : Bytes → List (Entry c) → Option Bytes
  unfolding write_envelopes
  write_bodies payload [] = some payload
  write_bodies payload (d ∷ ds) = elim (write_envelopes is_body payload d.envelopes) [
    | none ↦ none
    | some longer ↦ write_bodies longer ds
  ]

  -- `selected_deltas[len - 1]`.
  abbrev pub last_or : Entry c → List (Entry c) → Entry c
  last_or d [] = d
  last_or d (x ∷ xs) = last_or x xs

  unfoldable pub assemble_envelopes_in_delta_order : List (Entry c) → Option Bytes
  unfolding write_bodies
  assemble_envelopes_in_delta_order [] = some []
  assemble_envelopes_in_delta_order (d ∷ ds) =
      let last_delta = last_or d ds in
      elim (write_envelopes is_control [] last_delta.envelopes) [
        | none ↦ none
        | some controls ↦ elim (write_bodies controls (d ∷ ds)) [
          | none ↦ none
          | some bodies ↦ write_envelopes is_closing bodies last_delta.envelopes
        ]
      ]

  -- The specification of the payload: the encodings of a list of envelopes, one after the other.
  unfoldable pub encode_all : List SpecsEnvelope → Option Bytes
  encode_all [] = some []
  encode_all (e ∷ es) = elim (encode_length_delimited e) [
    | none ↦ none
    | some bytes ↦ elim (encode_all es) [ none ↦ none | some rest ↦ some (bytes ++ rest) ]
  ]

  abbrev pub bodies : List (Entry c) → List SpecsEnvelope
  bodies [] = []
  bodies (d ∷ ds) = retain is_body d.envelopes ++ bodies ds

  -- The controls of the last delta, the bodies of all of them, oldest first, and the closing
  -- envelopes of the last.
  abbrev pub delta_order : List (Entry c) → List SpecsEnvelope
  delta_order [] = []
  delta_order (d ∷ ds) =
      retain is_control (last_or d ds).envelopes
      ++ (bodies (d ∷ ds) ++ retain is_closing (last_or d ds).envelopes)

  abbrev after : Bytes → Option Bytes → Option Bytes
  after payload none = none
  after payload (some bytes) = some (payload ++ bytes)

  after-after : (p q : Bytes) (o : Option Bytes) → after p (after q o) ≡ after (p ++ q) o
  after-after p q none = refl
  after-after p q (some bytes) = ap some (sym (append_assoc p q bytes))

  write_envelopes-encode_all :
      (keep : SpecsEnvelope → Bool) (payload : Bytes) (es : List SpecsEnvelope)
      → write_envelopes keep payload es ≡ after payload (encode_all (retain keep es))
  unfolding write_envelopes encode_all
  write_envelopes-encode_all keep payload [] = ap some (sym (append-nil payload))
  write_envelopes-encode_all keep payload (e ∷ es) = elim (Bool-cases (keep e)) [
    | inr skip ↦ rw skip (write_envelopes-encode_all keep payload es)
    | inl kept ↦ elim (Option-cases (encode_length_delimited e)) [
      | inl failed ↦ rw (kept, failed)
      | inr (bytes, ok) ↦
          rw (kept, ok)
            (write_envelopes-encode_all keep (payload ++ bytes) es
              ∙ sym (after-after payload bytes (encode_all (retain keep es)))
              ∙ ap (after payload) (after_elim bytes (encode_all (retain keep es))))
    ]
  ]
    where
      after_elim :
          (bytes : Bytes) (o : Option Bytes)
          → after bytes o ≡ elim o [ none ↦ none | some rest ↦ some (bytes ++ rest) ]
      after_elim bytes none = refl
      after_elim bytes (some rest) = refl

  encode_all-append :
      (xs ys : List SpecsEnvelope)
      → encode_all (xs ++ ys)
        ≡ elim (encode_all xs) [ none ↦ none | some bytes ↦ after bytes (encode_all ys) ]
  unfolding encode_all
  encode_all-append [] ys = after_nil (encode_all ys)
    where
      after_nil : (o : Option Bytes) → o ≡ after [] o
      after_nil none = refl
      after_nil (some bytes) = refl
  encode_all-append (e ∷ es) ys = elim (Option-cases (encode_length_delimited e)) [
    | inl failed ↦ rw failed
    | inr (bytes, ok) ↦ elim (Option-cases (encode_all es)) [
      | inl failed ↦ rw (ok, encode_all-append es ys, failed)
      | inr (rest, fine) ↦
          rw (ok, encode_all-append es ys, fine)
            (ground (arith, after-after bytes rest (encode_all ys)))
    ]
  ]

  write_bodies-encode_all :
      (payload : Bytes) (ds : List (Entry c))
      → write_bodies payload ds ≡ after payload (encode_all (bodies ds))
  unfolding write_bodies
  write_bodies-encode_all payload [] = unfold encode_all in ap some (sym (append-nil payload))
  write_bodies-encode_all payload (d ∷ ds) =
      elim (Option-cases (encode_all (retain is_body d.envelopes))) [
        | inl failed ↦ rw (
          write_bodies,
          write_envelopes-encode_all is_body payload d.envelopes,
          encode_all-append (retain is_body d.envelopes) (bodies ds),
          failed,
        )
        | inr (bytes, ok) ↦
            rw
              (
                write_bodies,
                write_envelopes-encode_all is_body payload d.envelopes,
                encode_all-append (retain is_body d.envelopes) (bodies ds),
                ok,
              )
              (write_bodies-encode_all (payload ++ bytes) ds
                ∙ sym (after-after payload bytes (encode_all (bodies ds))))
      ]

  -- The payload of a combined delta is the encodings of the controls of the last selected delta, of
  -- the bodies of all selected deltas from the oldest on, and of the closing envelopes of the last;
  -- there is none exactly if one of them cannot be encoded.
  pub assemble-delta_order :
      (selected : List (Entry c))
      → assemble_envelopes_in_delta_order selected ≡ encode_all (delta_order selected)
  unfolding assemble_envelopes_in_delta_order
  assemble-delta_order [] = unfold encode_all in refl
  assemble-delta_order (d ∷ ds) =
      let l = (last_or d ds).envelopes in
      let controls = retain is_control l in
      let closing = retain is_closing l in
      elim (Option-cases (encode_all controls)) [
        | inl failed ↦ rw (
          assemble_envelopes_in_delta_order,
          write_envelopes-encode_all is_control [] l,
          encode_all-append controls (bodies (d ∷ ds) ++ closing),
          failed,
        )
        | inr (a, ok) ↦ elim (Option-cases (encode_all (bodies (d ∷ ds)))) [
          | inl failed ↦ rw (
            assemble_envelopes_in_delta_order,
            write_envelopes-encode_all is_control [] l,
            encode_all-append controls (bodies (d ∷ ds) ++ closing),
            ok,
            encode_all-append (bodies (d ∷ ds)) closing,
            write_bodies-encode_all a (d ∷ ds),
            failed,
          )
          | inr (b, fine) ↦
              rw
                (
                  assemble_envelopes_in_delta_order,
                  write_envelopes-encode_all is_control [] l,
                  encode_all-append controls (bodies (d ∷ ds) ++ closing),
                  ok,
                  encode_all-append (bodies (d ∷ ds)) closing,
                  write_bodies-encode_all a (d ∷ ds),
                  fine,
                  write_envelopes-encode_all is_closing (a ++ b) l,
                )
                (sym (after-after a b (encode_all closing)))
        ]
      ]
