-- ===== src/Encoding/Accept.antt =====
-- `parse_accept_encoding_token` of `utils/compress_encoder.rs`, and
-- `utils/compress_encoder/parsed_accept_encoding.rs`.
use statsig_forward_proxy.Prelude.{
  Bool, true, false, not, ◌||◌, Option, none, some, List, [], ◌∷◌, ◌++◌, map, Text, codes, text_beq,
  ◌==◌, if◌then◌else◌, split, join, trim, to_ascii_lowercase, sort_by, dedup, retain, is_empty,
}
use statsig_forward_proxy.Encoding.{
  CompressionEncoder, plain_text, identity, fmt, from_str, encoding_priority, encoding_eq,
  priority_leb,
}

-- `splitn(2, '=')`: the text before the first `=`, and the text after it, empty if there is none.
unfoldable pub split_pair : Text → Text × Text
split_pair [] = ([], [])
split_pair (x ∷ xs) = if x == b'=' then ([], xs) else (x ∷ (split_pair xs).0, (split_pair xs).1)

pub record ParsedAcceptEncoding : Type 0 where
  pub acceptable_encodings : List CompressionEncoder
  pub saw_non_empty_token : Bool
  pub saw_unrecognized_token : Bool

abbrev pub nothing_seen : ParsedAcceptEncoding
nothing_seen = record {
  acceptable_encodings = [];
  saw_non_empty_token = false;
  saw_unrecognized_token = false;
}

-- `q_rejects v`: the text `v` parses as an `f32`, and the number is at most 0. There are no floats
-- here, so this test is a parameter.
module _ (q_rejects : Text → Bool) where
  -- The loop over the parameters of a token: false if some `q` rejects it.
  unfoldable pub params_accept : List Text → Bool
  unfolding split_pair trim to_ascii_lowercase
  params_accept [] = true
  params_accept (param ∷ params) =
      let rest = params_accept params in
      let kv = split_pair param in
      if not (text_beq (to_ascii_lowercase (trim kv.0)) (codes "q"))
      then rest
      else if q_rejects (trim kv.1)
      then false
      else rest

  unfoldable pub token_parts : List Text → Option (CompressionEncoder × Bool)
  unfolding params_accept trim to_ascii_lowercase from_str
  token_parts [] = none
  token_parts (token ∷ params) = elim (from_str (to_ascii_lowercase (trim token))) [
    | none ↦ none
    | some e ↦ some (e, params_accept params)
  ]

  unfoldable pub parse_accept_encoding_token : Text → Option (CompressionEncoder × Bool)
  unfolding token_parts split
  parse_accept_encoding_token raw = token_parts (split b';' raw)

  -- One round of the loop of `from_raw_value`, over a trimmed piece.
  unfoldable pub note_token : ParsedAcceptEncoding → Text → ParsedAcceptEncoding
  unfolding parse_accept_encoding_token
  note_token parsed raw = if is_empty raw then parsed else elim (parse_accept_encoding_token raw) [
    | some (e, acceptable) ↦ record {
      acceptable_encodings =
          if acceptable then parsed.acceptable_encodings ++ e ∷ [] else parsed.acceptable_encodings;
      saw_non_empty_token = true;
      saw_unrecognized_token = parsed.saw_unrecognized_token;
    }
    | none ↦ record {
      acceptable_encodings = parsed.acceptable_encodings;
      saw_non_empty_token = true;
      saw_unrecognized_token = true;
    }
  ]

  unfoldable pub note_tokens : ParsedAcceptEncoding → List Text → ParsedAcceptEncoding
  unfolding note_token trim
  note_tokens parsed [] = parsed
  note_tokens parsed (raw ∷ rest) = note_tokens (note_token parsed (trim raw)) rest

  unfoldable pub from_raw_value : Text → ParsedAcceptEncoding
  unfolding note_tokens split sort_by dedup encoding_priority
  from_raw_value value =
      let parsed = note_tokens nothing_seen (split b',' value) in
      record parsed {
        acceptable_encodings = dedup encoding_eq (sort_by priority_leb parsed.acceptable_encodings);
      }

  unfoldable pub from_header_values : List Text → ParsedAcceptEncoding
  unfolding from_raw_value join
  from_header_values header = from_raw_value (join (codes ",") header)

unfoldable pub logger_tag : ParsedAcceptEncoding → Option Text
unfolding join fmt
logger_tag p =
    if not p.saw_non_empty_token
    then some (codes "none")
    else if is_empty p.acceptable_encodings
    then some (codes "unknown")
    else let normalized = join (codes "+") (map fmt p.acceptable_encodings) in
      some (if p.saw_unrecognized_token then normalized ++ codes "+unknown" else normalized)

-- The test of `acceptable_encodings`.
abbrev pub is_compressed : CompressionEncoder → Bool
is_compressed e = not (encoding_eq e plain_text || encoding_eq e identity)

unfoldable pub acceptable_encodings : ParsedAcceptEncoding → List CompressionEncoder
acceptable_encodings p = retain is_compressed p.acceptable_encodings
