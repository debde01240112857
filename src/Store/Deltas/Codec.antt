-- ===== src/Store/Deltas/Codec.antt =====
-- What `deltas_store.rs` uses of code outside the repository, and the parsing of a delta response:
-- `parse_payload_to_protos`, `decode_envelopes` and `decompress`.
use mathlib.Core.Option
use statsig_forward_proxy.Prelude.{
  ℕ, zero, suc, Bool, true, false, ◌||◌, Option, none, some, List, [], ◌∷◌, ◌++◌, ◌==◌,
  if◌then◌else◌, length, is_empty,
}
use statsig_forward_proxy.Encoding.{
  plain_text, gzip, brotli, statsig_brotli, deflate, compress, identity, zstd,
}
use statsig_forward_proxy.Store.{Bytes, ResponsePayload}

-- The messages of `config_specs.proto` and prost's functions on them, and the decompressors.
pub record Codec : Type 1 where
  pub SpecsEnvelope : Type 0
  pub SpecsTopLevel : Type 0
  pub kind : SpecsEnvelope → ℕ
  pub envelope_data : SpecsEnvelope → Option Bytes
  pub time : SpecsTopLevel → ℕ
  pub done : ℕ
  pub copy_prev : ℕ
  pub top_level : ℕ
  pub checksums : ℕ
  pub encode_length_delimited : SpecsEnvelope → Option Bytes
  -- The message and what is left of the buffer; `none` is a decoding error.
  pub decode_length_delimited : Bytes → Option (SpecsEnvelope × Bytes)
  pub decode_envelope : Bytes → Option SpecsEnvelope
  pub decode_top_level : Bytes → Option SpecsTopLevel
  pub brotli_decompress : Bytes → Option Bytes
  pub gzip_decompress : Bytes → Option Bytes

-- The outcome of a decoding loop on fuel.
pub data Decoded {ℓ} (A : Type ℓ) : Type ℓ where
  decoded : A → Decoded A
  decode_error : Decoded A
  out_of_fuel : Decoded A

module _ (c : Codec) where
  open c use {
    SpecsEnvelope, SpecsTopLevel, kind, envelope_data, done, copy_prev, top_level, checksums,
    decode_length_delimited, decode_envelope, decode_top_level, brotli_decompress, gzip_decompress,
  }

  -- What an error of the loop makes of the envelopes so far.
  unfoldable pub on_error : Bytes → List SpecsEnvelope → Decoded (List SpecsEnvelope)
  on_error payload [] = elim (decode_envelope payload) [
    | some envelope ↦ decoded (envelope ∷ [])
    | none ↦ decode_error
  ]
  on_error payload (e ∷ es) = decode_error

  -- The `while` loop: `envelopes` are those decoded so far.
  unfoldable pub decode_loop : ℕ → Bytes → List SpecsEnvelope → Bytes → Decoded (List SpecsEnvelope)
  unfolding on_error
  decode_loop zero payload envelopes cursor = out_of_fuel
  decode_loop (suc fuel) payload envelopes cursor =
      if is_empty cursor then decoded envelopes else elim (decode_length_delimited cursor) [
        | none ↦ on_error payload envelopes
        | some (envelope, rest) ↦ elim (length rest == length cursor) [
          | true ↦ decoded (envelopes ++ envelope ∷ [])
          | false ↦ decode_loop fuel payload (envelopes ++ envelope ∷ []) rest
        ]
      ]

  unfoldable pub decode_envelopes : Bytes → Decoded (List SpecsEnvelope)
  unfolding decode_loop
  decode_envelopes payload = decode_loop (suc (length payload)) payload [] payload

  unfoldable pub decompress : ResponsePayload → Option Bytes
  decompress payload = elim payload.encoding [
    | brotli ↦ brotli_decompress payload.bytes
    | statsig_brotli ↦ brotli_decompress payload.bytes
    | gzip ↦ gzip_decompress payload.bytes
    | plain_text ↦ some payload.bytes
    | deflate ↦ none
    | compress ↦ none
    | identity ↦ none
    | zstd ↦ none
  ]

  unfoldable pub find_kind : ℕ → List SpecsEnvelope → Option SpecsEnvelope
  find_kind k [] = none
  find_kind k (e ∷ es) = if kind e == k then some e else find_kind k es

  -- The top level of the first envelope of that kind, else of the whole payload.
  unfoldable pub top_level_of : Bytes → List SpecsEnvelope → Option SpecsTopLevel
  unfolding find_kind
  top_level_of decompressed envelopes =
      elim (Option.bind (Option.bind (find_kind top_level envelopes) envelope_data)
        decode_top_level) [ some t ↦ some t | none ↦ decode_top_level decompressed ]

  parse_decoded : Bytes → Decoded (List SpecsEnvelope) → Option (List SpecsEnvelope × SpecsTopLevel)
  unfolding top_level_of
  parse_decoded decompressed (decoded envelopes) =
      Option.map (λ t. (envelopes, t)) (top_level_of decompressed envelopes)
  parse_decoded decompressed decode_error = none
  parse_decoded decompressed out_of_fuel = none

  unfoldable pub parse_payload_to_protos :
      ResponsePayload → Option (List SpecsEnvelope × SpecsTopLevel)
  unfolding parse_decoded decode_envelopes decompress
  parse_payload_to_protos payload =
      if payload.use_proto
      then elim (decompress payload) [
        | none ↦ none
        | some decompressed ↦ parse_decoded decompressed (decode_envelopes decompressed)
      ]
      else none

  unfoldable pub is_meta_envelope : ℕ → Bool
  is_meta_envelope k = k == done || k == copy_prev || k == top_level || k == checksums
