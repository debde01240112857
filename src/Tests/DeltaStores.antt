-- ===== src/Tests/DeltaStores.antt =====
-- The deltas store, over a codec whose envelopes are single bytes.
use mathlib.Core.Logic.{inl, inr}
use statsig_forward_proxy.Prelude.{
  ℕ, ◌≡◌, ◌≢◌, ◌≤◌, ◌<◌, ◌+◌, ◌-◌, refl, true, Option, none, some, [], ◌∷◌, Text, codes, get, arith,
  length, drop, Bool-cases, text_beq, text_eq, dedup, sort_by,
}
use statsig_forward_proxy.Encoding.{CompressionEncoder, plain_text, gzip, encoding_eq}
use statsig_forward_proxy.Request.Path.{v2_download_config_specs_deltas}
use statsig_forward_proxy.Request.Context.{
  AuthorizedRequestContext, new, context_eq, with_request_capabilities,
}
use statsig_forward_proxy.Store.{Bytes, ResponseContext, data_available}
use statsig_forward_proxy.Store.SdkKeys.{has_key, get_lcut, newest}
use statsig_forward_proxy.Store.Deltas.Codec.{
  Codec, out_of_fuel, decode_envelopes, decompress, is_meta_envelope, parse_payload_to_protos,
}
use statsig_forward_proxy.Store.Deltas.Cache.{
  Entry, insert_delta, file_delta, IsCache, file_delta-IsCache,
}
use statsig_forward_proxy.Store.Deltas.Decode.{decode_envelopes-ne-out_of_fuel}
use statsig_forward_proxy.Store.Deltas.Combine.{combined}
use statsig_forward_proxy.Store.Deltas.Assemble.{
  assemble_envelopes_in_delta_order, encode_all, delta_order, assemble-delta_order,
}
use statsig_forward_proxy.Store.Deltas.Observe.{
  DeltasStore, create, update, notify, combined_delta, has_registered_key, cached,
}
use statsig_forward_proxy.Store.Deltas.Valid.{
  IsValid, notify-create-IsValid, combined_delta_lem, update-unparsed,
}

abbrev one_byte : Bytes → Option (ℕ × Bytes)
one_byte [] = none
one_byte (b ∷ bs) = some (b, bs)

abbrev head : Bytes → Option ℕ
head [] = none
head (b ∷ bs) = some b

abbrev byte_codec : Codec
byte_codec = record {
  SpecsEnvelope = ℕ;
  SpecsTopLevel = ℕ;
  kind = λ e. e;
  envelope_data = λ e. some (e ∷ []);
  time = λ t. t;
  done = 0;
  copy_prev = 1;
  top_level = 2;
  checksums = 3;
  encode_length_delimited = λ e. some (e ∷ []);
  decode_length_delimited = one_byte;
  decode_envelope = λ b. none;
  decode_top_level = head;
  brotli_decompress = λ b. some b;
  gzip_decompress = λ b. none;
}

one_byte_shrinks : (b : Bytes) (e : ℕ) (r : Bytes) → one_byte b ≡ some (e, r) → length r ≤ length b
one_byte_shrinks [] e r h = cc
one_byte_shrinks (x ∷ xs) e r h = ground arith

decode_envelopes-ne-out_of_fuel_example : decode_envelopes byte_codec (4 ∷ 5 ∷ []) ≢ out_of_fuel
decode_envelopes-ne-out_of_fuel_example =
    decode_envelopes-ne-out_of_fuel byte_codec one_byte_shrinks (4 ∷ 5 ∷ [])

abbrev entry : ℕ → Bytes → Entry byte_codec
entry lcut envelopes = record {
  since_time_requested = 1;
  lcut = lcut;
  top_level = lcut;
  envelopes = envelopes;
}

file_delta-IsCache_example :
    IsCache byte_codec 2 (file_delta byte_codec 2 (entry 7 []) (entry 5 [] ∷ entry 9 [] ∷ []))
    × (file_delta byte_codec 2 (entry 7 []) (entry 5 [] ∷ entry 9 [] ∷ [])
        ≡ drop (2 + 1 - 2) (insert_delta byte_codec (entry 7 []) (entry 5 [] ∷ entry 9 [] ∷ [])))
    × (0 < length (file_delta byte_codec 2 (entry 7 []) (entry 5 [] ∷ entry 9 [] ∷ [])))
file_delta-IsCache_example =
    file_delta-IsCache byte_codec 2 (entry 7 []) (entry 5 [] ∷ entry 9 [] ∷ []) (omega arith)
      (record { by_lcut = ((omega arith, tt), (tt, tt)); bounded = omega arith })

assemble-delta_order_example :
    assemble_envelopes_in_delta_order byte_codec
      (entry 5 (2 ∷ 40 ∷ []) ∷ entry 9 (2 ∷ 50 ∷ 0 ∷ []) ∷ [])
    ≡ encode_all byte_codec
        (delta_order byte_codec (entry 5 (2 ∷ 40 ∷ []) ∷ entry 9 (2 ∷ 50 ∷ 0 ∷ []) ∷ []))
assemble-delta_order_example =
    assemble-delta_order byte_codec (entry 5 (2 ∷ 40 ∷ []) ∷ entry 9 (2 ∷ 50 ∷ 0 ∷ []) ∷ [])

abbrev delta_request : AuthorizedRequestContext
delta_request =
    with_request_capabilities (new (codes "secret-a") v2_download_config_specs_deltas (gzip ∷ []))
      true true

abbrev delta_response : CompressionEncoder → Bytes → ResponseContext
delta_response encoding bytes = record {
  result_type = data_available;
  lcut = 9;
  request_since_time = 1;
  body = record { encoding = encoding; use_proto = true; bytes = bytes };
}

notify-create-IsValid_example : IsValid byte_codec (
    notify byte_codec
      (create byte_codec [] 3)
      ((delta_request, delta_response plain_text (9 ∷ [])) ∷ []))
notify-create-IsValid_example =
    notify-create-IsValid byte_codec [] 3 ((delta_request, delta_response plain_text (9 ∷ [])) ∷ [])

update-unparsed_example :
    ((update byte_codec (create byte_codec [] 3) delta_request (delta_response gzip [])).store
      ≡ (create byte_codec [] 3).store)
    × (get_lcut
          (update byte_codec
            (create byte_codec [] 3)
            delta_request
            (delta_response gzip [])).sdk_key_store
          delta_request
        ≡ some (newest (get_lcut (create byte_codec [] 3).sdk_key_store delta_request) 9))
unfolding parse_payload_to_protos decompress new
update-unparsed_example =
    update-unparsed byte_codec (create byte_codec [] 3) delta_request (delta_response gzip []) refl
      refl refl

abbrev filled : DeltasStore byte_codec
filled = record {
  store = (codes "secret-a", entry 5 (2 ∷ 40 ∷ []) ∷ entry 9 (2 ∷ 50 ∷ 0 ∷ []) ∷ []) ∷ [];
  sdk_key_store = (delta_request, 9) ∷ [];
  max_responses_to_persist = 3;
}

filled-caches : (sdk_key : Text) → IsCache byte_codec 3 (cached byte_codec filled sdk_key)
unfolding get
filled-caches sdk_key = elim (Bool-cases (text_beq (codes "secret-a") sdk_key)) [
  | inl e ↦ rw (get, e) (record { by_lcut = ((omega arith, tt), (tt, tt)); bounded = omega arith })
  | inr e ↦ rw (get, e) (record { by_lcut = tt; bounded = omega arith })
]

combined_delta_lem_example :
    combined_delta byte_codec filled delta_request 6 ≡ combined 9 (2 ∷ 50 ∷ 0 ∷ [])
unfolding encode_all has_registered_key get new context_eq has_key dedup sort_by encoding_eq
    is_meta_envelope
combined_delta_lem_example =
    combined_delta_lem byte_codec filled delta_request 6 (entry 5 (2 ∷ 40 ∷ []))
      (entry 9 (2 ∷ 50 ∷ 0 ∷ []) ∷ []) (record { positive = omega arith; caches = filled-caches })
      refl refl
