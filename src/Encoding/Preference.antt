-- ===== src/Encoding/Preference.antt =====
-- What `ParsedAcceptEncoding` makes of an Accept-Encoding header.
use mathlib.Core.Logic.{inl, inr}
use statsig_forward_proxy.Prelude.{
  ◌≡◌, ◌∙◌, refl, sym, ap, Bool, not, Option, codes, text_beq, to_ascii_lowercase, ◌==◌, Bool-cases,
  false, ◌||◌, ◌&&◌, none, some, List, [], ◌∷◌, ◌++◌, arith, Text, if◌then◌else◌, is_empty, any,
  split, trim, Option-cases, sort_by, dedup,
}
use statsig_forward_proxy.Encoding.{
  CompressionEncoder, plain_text, identity, from_str, encoding_eq, priority_leb,
}
use statsig_forward_proxy.Encoding.Laws.{
  contains, Rising, dedup-sort_by-Rising, contains-dedup-sort_by, retain-Rising, contains-retain,
}
use statsig_forward_proxy.Encoding.Accept.{
  ParsedAcceptEncoding, parse_accept_encoding_token, note_token, note_tokens, from_raw_value,
  acceptable_encodings, split_pair, params_accept, token_parts, nothing_seen, is_compressed,
}

-- The text before the first `=`, and the text behind it.
abbrev pub before_equals : Text → Text
before_equals [] = []
before_equals (c ∷ s) = if c == b'=' then [] else c ∷ before_equals s

abbrev pub after_equals : Text → Text
after_equals [] = []
after_equals (c ∷ s) = if c == b'=' then s else after_equals s

split_pair-equals : (param : Text) → split_pair param ≡ (before_equals param, after_equals param)
unfolding split_pair
split_pair-equals [] = refl
split_pair-equals (c ∷ s) = elim (Bool-cases (c == b'=')) [
  | inl e ↦ rw (split_pair, e) refl
  | inr e ↦ rw (split_pair, e, split_pair-equals s) refl
]

module _ (q_rejects : Text → Bool) where
  -- The parameter is a `q`, in any case, whose value rejects the encoding.
  abbrev pub refuses : Text → Bool
  refuses param =
      text_beq (to_ascii_lowercase (trim (before_equals param))) (codes "q")
      && q_rejects (trim (after_equals param))

  -- The first of the parts names the encoding, in any case, and no parameter behind it refuses it.
  abbrev pub parts_offer : CompressionEncoder → List Text → Bool
  parts_offer e [] = false
  parts_offer e (name ∷ params) = elim (from_str (to_ascii_lowercase (trim name))) [
    | some f ↦ not (any refuses params) && encoding_eq e f
    | none ↦ false
  ]

  -- A trimmed piece of the header offers the encoding.
  abbrev pub offers : CompressionEncoder → Text → Bool
  offers e raw = if is_empty raw then false else parts_offer e (split b';' raw)

  params_accept-refuses :
      (params : List Text) → params_accept q_rejects params ≡ not (any refuses params)
  unfolding params_accept
  params_accept-refuses [] = refl
  params_accept-refuses (param ∷ params) =
      ground (arith, params_accept-refuses params, split_pair-equals param)

  -- What the parser makes of the parts.
  abbrev offered : CompressionEncoder → Option (CompressionEncoder × Bool) → Bool
  offered e (some (f, acceptable)) = acceptable && encoding_eq e f
  offered e none = false

  parsed-parts_offer :
      (e : CompressionEncoder) (raw : Text)
      → offered e (parse_accept_encoding_token q_rejects raw) ≡ parts_offer e (split b';' raw)
  unfolding parse_accept_encoding_token token_parts
  parsed-parts_offer e raw = of_parts (split b';' raw)
    where
      of_parts : (parts : List Text) → offered e (token_parts q_rejects parts) ≡ parts_offer e parts
      of_parts [] = refl
      of_parts (name ∷ params) = of_name (from_str (to_ascii_lowercase (trim name)))
        where
          of_name :
              (o : Option CompressionEncoder)
              → offered e
                  (elim o [ none ↦ none | some f ↦ some (f, params_accept q_rejects params) ])
                ≡ elim o [ some f ↦ not (any refuses params) && encoding_eq e f | none ↦ false ]
          of_name none = refl
          of_name (some f) = ap (λ b. b && encoding_eq e f) (params_accept-refuses params)

  contains-append_one :
      (e x : CompressionEncoder) (xs : List CompressionEncoder)
      → contains e (xs ++ x ∷ []) ≡ (contains e xs || encoding_eq e x)
  contains-append_one e x [] = ground arith
  contains-append_one e x (y ∷ ys) = ground (arith, contains-append_one e x ys)

  contains-note_token :
      (e : CompressionEncoder) (p : ParsedAcceptEncoding) (raw : Text)
      → contains e (note_token q_rejects p raw).acceptable_encodings
        ≡ (contains e p.acceptable_encodings || offers e raw)
  unfolding note_token
  contains-note_token e p raw = elim (Option-cases (parse_accept_encoding_token q_rejects raw)) [
    | inl h ↦ rw (h, note_token) (ground (arith, ap (offered e) (sym h) ∙ parsed-parts_offer e raw))
    | inr ((f, acceptable), h) ↦
        rw (h, note_token)
          (ground (
            arith,
            contains-append_one e f p.acceptable_encodings,
            ap (offered e) (sym h) ∙ parsed-parts_offer e raw,
          ))
  ]

  contains-note_tokens :
      (e : CompressionEncoder) (p : ParsedAcceptEncoding) (raws : List Text)
      → contains e (note_tokens q_rejects p raws).acceptable_encodings
        ≡ (contains e p.acceptable_encodings || any (λ raw. offers e (trim raw)) raws)
  unfolding note_tokens
  contains-note_tokens e p [] = ground arith
  contains-note_tokens e p (raw ∷ raws) = ground (
    arith,
    contains-note_tokens e (note_token q_rejects p (trim raw)) raws,
    contains-note_token e p (trim raw),
  )

  -- The acceptable encodings of a header stand in strictly falling preference, and an encoding is
  -- one of them exactly when it is neither `plain_text` nor `identity` and some comma-separated
  -- piece of the header names it with no `q` parameter whose value rejects it.
  pub acceptable_encodings_lem :
      (value : Text)
      → Rising (acceptable_encodings (from_raw_value q_rejects value))
        × ((e : CompressionEncoder)
            → contains e (acceptable_encodings (from_raw_value q_rejects value)) ≡ (
                if encoding_eq e plain_text || encoding_eq e identity
                then false
                else any (λ raw. offers e (trim raw)) (split b',' value)))
  unfolding from_raw_value acceptable_encodings
  acceptable_encodings_lem value =
      let seen = (note_tokens q_rejects nothing_seen (split b',' value)).acceptable_encodings in
      let kept = dedup encoding_eq (sort_by priority_leb seen) in
      (
        retain-Rising is_compressed kept (dedup-sort_by-Rising seen),
        λ e.
            contains-retain is_compressed e kept
            ∙ ground (
              arith,
              contains-dedup-sort_by e seen,
              contains-note_tokens e nothing_seen (split b',' value),
            ),
      )
