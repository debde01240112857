-- ===== src/Store/Deltas/Valid.antt =====
-- The invariant of `DeltasStore` over any history of notifications, and what a client is sent.
use mathlib.Core.Logic.{inl, inr}
use statsig_forward_proxy.Prelude.{
  ℕ, ◌≡◌, ◌<◌, refl, true, ◌&&◌, none, some, List, [], ◌∷◌, arith, Text, text_beq, text_eq,
  if◌then◌else◌, get, get-insert, get-remove, Option-cases, Bool-cases, ltb, leb, retain,
}
use statsig_forward_proxy.Request.Path.{
  NormalizedPath, v2_download_config_specs, v2_download_config_specs_deltas,
}
use statsig_forward_proxy.Request.Context.{AuthorizedRequestContext, context_eq_refl}
use statsig_forward_proxy.Store.{
  DataProviderRequestResult, data_available, no_data_available, unauthorized, client_error, error,
  ResponseContext, ResponsePayload,
}
use statsig_forward_proxy.Store.SdkKeys.{SdkKeyStore, has_key, get_lcut, newest, get_lcut-upsert}
use statsig_forward_proxy.Store.ConfigSpecs.{Notification}
use statsig_forward_proxy.Store.Deltas.Codec.{Codec, parse_payload_to_protos}
use statsig_forward_proxy.Store.Deltas.Cache.{Entry, IsCache, file_delta-IsCache}
use statsig_forward_proxy.Store.Deltas.Combine.{
  since_time_too_old, no_updates, combined, serialization_failed, earliest_from,
  build_combined_delta_proto_payload, combine_lem,
}
use statsig_forward_proxy.Store.Deltas.Assemble.{encode_all, delta_order, last_or}
use statsig_forward_proxy.Store.Deltas.Observe.{
  DeltasStore, to_delta_request_context, create, cached, persist_delta, remove_sdk_key,
  config_specs_result, deltas_result, update, notify, has_registered_key, combined_delta,
}

module _ (c : Codec) where
  -- The deltas of every key are in order and within the limit.
  pub record IsValid (s : DeltasStore c) : Type 0 where
    pub positive : 0 < s.max_responses_to_persist
    pub caches : (sdk_key : Text) → IsCache c s.max_responses_to_persist (cached c s sdk_key)

  pub create-IsValid : (keys : SdkKeyStore) (limit : ℕ) → IsValid (create c keys limit)
  unfolding create get
  create-IsValid keys limit = record {
    positive = omega arith;
    caches = λ sdk_key. record { by_lcut = tt; bounded = omega arith };
  }

  persist_delta-IsValid :
      (s : DeltasStore c) (rc : AuthorizedRequestContext) (payload : ResponsePayload) (since : ℕ)
      → IsValid s
      → IsValid (persist_delta c s rc payload since)
  unfolding persist_delta
  persist_delta-IsValid s rc payload since v =
      elim (Option-cases (parse_payload_to_protos c payload)) [
        | inl unparsed ↦ rw (unparsed, persist_delta) v
        | inr ((envelopes, top_level), parsed) ↦
            rw (parsed, persist_delta)
              (record {
                positive = v.positive;
                caches = λ sdk_key. elim (Bool-cases (text_beq rc.sdk_key sdk_key)) [
                  | inl same ↦
                      rw (get-insert, same)
                        (file_delta-IsCache c s.max_responses_to_persist _ (cached c s rc.sdk_key)
                          v.positive (v.caches rc.sdk_key)).0
                  | inr other ↦ rw (get-insert, other) (v.caches sdk_key)
                ];
              })
      ]

  remove_sdk_key-IsValid :
      (s : DeltasStore c) (rc : AuthorizedRequestContext)
      → IsValid s
      → IsValid (remove_sdk_key c s rc)
  unfolding remove_sdk_key
  remove_sdk_key-IsValid s rc v = record {
    positive = v.positive;
    caches = λ sdk_key. elim (Bool-cases (text_beq rc.sdk_key sdk_key)) [
      | inl same ↦ rw (get-remove, same) (record { by_lcut = tt; bounded = omega arith })
      | inr other ↦ rw (get-remove, other) (v.caches sdk_key)
    ];
  }

  -- The keys that are registered do not matter to the deltas.
  register-IsValid :
      (s : DeltasStore c) (keys : SdkKeyStore)
      → IsValid s
      → IsValid (record s { sdk_key_store = keys })
  register-IsValid s keys v = record { positive = v.positive; caches = v.caches }

  config_specs_result-IsValid :
      (s : DeltasStore c) (rc : AuthorizedRequestContext) (lcut : ℕ) (t : DataProviderRequestResult)
      → IsValid s
      → IsValid (config_specs_result c s rc lcut t)
  unfolding config_specs_result
  config_specs_result-IsValid s rc lcut data_available v =
      elim (Bool-cases (has_key s.sdk_key_store (to_delta_request_context rc))) [
        | inl known ↦ rw known v
        | inr fresh ↦ rw fresh (register-IsValid s _ v)
      ]
  config_specs_result-IsValid s rc lcut unauthorized v =
      remove_sdk_key-IsValid s (to_delta_request_context rc) v
  config_specs_result-IsValid s rc lcut client_error v =
      remove_sdk_key-IsValid s (to_delta_request_context rc) v
  config_specs_result-IsValid s rc lcut error v = v
  config_specs_result-IsValid s rc lcut no_data_available v = v

  deltas_result-IsValid :
      (s : DeltasStore c) (rc : AuthorizedRequestContext) (response : ResponseContext)
      (t : DataProviderRequestResult)
      → IsValid s
      → IsValid (deltas_result c s rc response t)
  unfolding deltas_result
  deltas_result-IsValid s rc response data_available v =
      register-IsValid _ _ (persist_delta-IsValid s rc response.body response.request_since_time v)
  deltas_result-IsValid s rc response unauthorized v = remove_sdk_key-IsValid s rc v
  deltas_result-IsValid s rc response client_error v = remove_sdk_key-IsValid s rc v
  deltas_result-IsValid s rc response error v = v
  deltas_result-IsValid s rc response no_data_available v = v

  update_at-IsValid :
      (s : DeltasStore c) (rc : AuthorizedRequestContext) (response : ResponseContext)
      (path : NormalizedPath)
      → rc.path ≡ path
      → IsValid s
      → IsValid (update c s rc response)
  unfolding update
  update_at-IsValid s rc response v2_download_config_specs p v =
      rw (p, update)
        (elim (Bool-cases (rc.supports_proto && rc.accept_deltas)) [
          | inl listens ↦
              rw listens (config_specs_result-IsValid s rc response.lcut response.result_type v)
          | inr ignored ↦ rw ignored v
        ])
  update_at-IsValid s rc response v2_download_config_specs_deltas p v =
      rw (p, update) (deltas_result-IsValid s rc response response.result_type v)
  update_at-IsValid s rc response other p v = rw (p, update) v

  pub notify-IsValid :
      (s : DeltasStore c) (events : List Notification) → IsValid s → IsValid (notify c s events)
  unfolding notify
  notify-IsValid s [] v = v
  notify-IsValid s ((rc, response) ∷ rest) v =
      notify-IsValid (update c s rc response) rest (update_at-IsValid s rc response rc.path refl v)

  -- From its creation on, whatever responses it is told of, the store keeps the deltas of every SDK
  -- key in the order of their lcut, and at most as many as its limit, which is at least one.
  pub notify-create-IsValid :
      (keys : SdkKeyStore) (limit : ℕ) (events : List Notification)
      → IsValid (notify c (create c keys limit) events)
  notify-create-IsValid keys limit events =
      notify-IsValid (create c keys limit) events (create-IsValid keys limit)

  -- In a valid state, a registered client with cached deltas `d ∷ ds` is told to start over exactly
  -- if it is behind the earliest time that one of them was requested since; else it has no update
  -- exactly if it is at the newest lcut or beyond, and else gets the newest lcut with the encodings,
  -- in delta order, of all cached deltas whose lcut is not below its own, or a failure if one of
  -- these cannot be encoded.
  pub combined_delta_lem :
      (s : DeltasStore c) (rc : AuthorizedRequestContext) (since_time : ℕ) (d : Entry c)
      (ds : List (Entry c))
      → IsValid s
      → has_registered_key c s rc ≡ true
      → cached c s (to_delta_request_context rc).sdk_key ≡ d ∷ ds
      → combined_delta c s rc since_time ≡ (
          if ltb since_time (earliest_from c d.since_time_requested ds)
          then since_time_too_old (earliest_from c d.since_time_requested ds)
          else if leb (last_or c d ds).lcut since_time
          then no_updates (last_or c d ds).lcut
          else elim (encode_all c (delta_order c (retain (λ x. leb since_time x.lcut) (d ∷ ds)))) [
            | some payload ↦ combined (last_or c d ds).lcut payload
            | none ↦ serialization_failed
          ])
  unfolding combined_delta build_combined_delta_proto_payload
  combined_delta_lem s rc since_time d ds v known here =
      let order = (v.caches (to_delta_request_context rc).sdk_key).by_lcut in
      rw (known, here) (combine_lem c d ds since_time (rw here at order))

  persist_delta-unparsed :
      (s : DeltasStore c) (rc : AuthorizedRequestContext) (payload : ResponsePayload) (since : ℕ)
      → parse_payload_to_protos c payload ≡ none
      → persist_delta c s rc payload since ≡ s
  unfolding persist_delta
  persist_delta-unparsed s rc payload since unparsed = rw (unparsed, persist_delta)

  -- A delta response that cannot be parsed leaves no delta in the store, and yet the lcut from which
  -- the deltas of the key are polled rises to that of the response, unless it was higher.
  pub update-unparsed :
      (s : DeltasStore c) (rc : AuthorizedRequestContext) (response : ResponseContext)
      → rc.path ≡ v2_download_config_specs_deltas
      → response.result_type ≡ data_available
      → parse_payload_to_protos c response.body ≡ none
      → ((update c s rc response).store ≡ s.store)
        × (get_lcut (update c s rc response).sdk_key_store rc
            ≡ some (newest (get_lcut s.sdk_key_store rc) response.lcut))
  unfolding update deltas_result
  update-unparsed s rc response p q unparsed =
      let kept = persist_delta-unparsed s rc response.body response.request_since_time unparsed in
      ground (arith, kept, get_lcut-upsert s.sdk_key_store rc rc response.lcut, context_eq_refl rc)
