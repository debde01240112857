-- ===== src/Store/Deltas/Observe.antt =====
-- The state of `DeltasStore` and its operations: the observer's `update`, `persist_delta` and the
-- calls of the servers.
use statsig_forward_proxy.Prelude.{
  ℕ, max, Bool, ◌&&◌, none, some, List, [], ◌∷◌, Text, text_eq, if◌then◌else◌, Map, get, insert,
  remove, unwrap_or,
}
use statsig_forward_proxy.Request.Path.{
  v1_download_config_specs, v1_get_id_lists, v1_download_id_list_file, v1_log_event,
  v1_user_enrichment, v2_download_config_specs, v2_download_config_specs_deltas, raw_path,
}
use statsig_forward_proxy.Request.Context.{AuthorizedRequestContext, new, with_request_capabilities}
use statsig_forward_proxy.Store.{
  DataProviderRequestResult, data_available, no_data_available, unauthorized, client_error, error,
  ResponseContext, ResponsePayload,
}
use statsig_forward_proxy.Store.SdkKeys.{SdkKeyStore, has_key, upsert, remove_key}
use statsig_forward_proxy.Store.ConfigSpecs.{Notification}
use statsig_forward_proxy.Store.Deltas.Codec.{Codec, parse_payload_to_protos}
use statsig_forward_proxy.Store.Deltas.Cache.{Entry, file_delta}
use statsig_forward_proxy.Store.Deltas.Combine.{
  DeltaProtoBuildResult, build_combined_delta_proto_payload,
}

pub record DeltasStore (c : Codec) : Type 0 where
  pub store : Map Text (List (Entry c))
  pub sdk_key_store : SdkKeyStore
  pub max_responses_to_persist : ℕ

abbrev pub to_delta_request_context : AuthorizedRequestContext → AuthorizedRequestContext
to_delta_request_context rc =
    with_request_capabilities (new rc.sdk_key v2_download_config_specs_deltas rc.encodings)
      rc.supports_proto rc.accept_deltas

module _ (c : Codec) where
  -- `DeltasStore::new`, over the shared key store.
  unfoldable pub create : SdkKeyStore → ℕ → DeltasStore c
  create sdk_key_store max_responses_to_persist = record {
    store = [];
    sdk_key_store = sdk_key_store;
    max_responses_to_persist = max max_responses_to_persist 1;
  }

  abbrev pub cached : DeltasStore c → Text → List (Entry c)
  cached s sdk_key = unwrap_or (get sdk_key s.store) []

  unfoldable pub persist_delta :
      DeltasStore c → AuthorizedRequestContext → ResponsePayload → ℕ → DeltasStore c
  unfolding parse_payload_to_protos file_delta
  persist_delta s rc payload since_time_requested = elim (parse_payload_to_protos c payload) [
    | none ↦ s
    | some (envelopes, top_level) ↦
        let entry : Entry c = record {
          since_time_requested = since_time_requested;
          lcut = c.time top_level;
          top_level = top_level;
          envelopes = envelopes;
        } in
        record s {
          store =
              insert rc.sdk_key
                (file_delta c s.max_responses_to_persist entry (cached s rc.sdk_key)) s.store;
        }
  ]

  unfoldable pub remove_sdk_key : DeltasStore c → AuthorizedRequestContext → DeltasStore c
  remove_sdk_key s rc = record s {
    sdk_key_store = remove_key s.sdk_key_store rc;
    store = remove rc.sdk_key s.store;
  }

  -- The arm of `update` for the full config specs: a key that is not registered yet is registered.
  unfoldable pub config_specs_result :
      DeltasStore c → AuthorizedRequestContext → ℕ → DataProviderRequestResult → DeltasStore c
  unfolding remove_sdk_key
  config_specs_result s rc lcut data_available =
      if has_key s.sdk_key_store (to_delta_request_context rc)
      then s
      else record s { sdk_key_store = upsert s.sdk_key_store (to_delta_request_context rc) lcut }
  config_specs_result s rc lcut unauthorized = remove_sdk_key s (to_delta_request_context rc)
  config_specs_result s rc lcut client_error = remove_sdk_key s (to_delta_request_context rc)
  config_specs_result s rc lcut error = s
  config_specs_result s rc lcut no_data_available = s

  -- The arm for the deltas.
  unfoldable pub deltas_result :
      DeltasStore c
      → AuthorizedRequestContext
      → ResponseContext
      → DataProviderRequestResult
      → DeltasStore c
  unfolding remove_sdk_key persist_delta
  deltas_result s rc response data_available =
      let filed = persist_delta s rc response.body response.request_since_time in
      record filed { sdk_key_store = upsert filed.sdk_key_store rc response.lcut }
  deltas_result s rc response unauthorized = remove_sdk_key s rc
  deltas_result s rc response client_error = remove_sdk_key s rc
  deltas_result s rc response error = s
  deltas_result s rc response no_data_available = s

  unfoldable pub update : DeltasStore c → AuthorizedRequestContext → ResponseContext → DeltasStore c
  unfolding config_specs_result deltas_result
  update s rc response = elim rc.path [
    | v2_download_config_specs ↦
        if rc.supports_proto && rc.accept_deltas
        then config_specs_result s rc response.lcut response.result_type
        else s
    | v2_download_config_specs_deltas ↦ deltas_result s rc response response.result_type
    | v1_download_config_specs ↦ s
    | v1_get_id_lists ↦ s
    | v1_download_id_list_file ↦ s
    | v1_log_event ↦ s
    | v1_user_enrichment ↦ s
    | raw_path _ ↦ s
  ]

  unfoldable pub notify : DeltasStore c → List Notification → DeltasStore c
  unfolding update
  notify s [] = s
  notify s ((rc, response) ∷ rest) = notify (update s rc response) rest

  -- `fetched` is what the store is told of while `foreground_fetch` is awaited.
  unfoldable pub get_deltas :
      DeltasStore c → List Notification → AuthorizedRequestContext → DeltasStore c × List (Entry c)
  unfolding notify
  get_deltas s fetched rc =
      let current =
        if has_key s.sdk_key_store rc
        then s
        else notify
            (record s { sdk_key_store = upsert s.sdk_key_store (to_delta_request_context rc) 0 })
            fetched in
      (current, cached current rc.sdk_key)

  unfoldable pub has_registered_key : DeltasStore c → AuthorizedRequestContext → Bool
  has_registered_key s rc = has_key s.sdk_key_store (to_delta_request_context rc)

  unfoldable pub register_sdk_key : DeltasStore c → AuthorizedRequestContext → ℕ → DeltasStore c
  register_sdk_key s rc since_time = record s {
    sdk_key_store = upsert s.sdk_key_store (to_delta_request_context rc) since_time;
  }

  -- `build_combined_delta_proto_payload`, with its two reads of the state.
  unfoldable pub combined_delta :
      DeltasStore c → AuthorizedRequestContext → ℕ → DeltaProtoBuildResult
  unfolding has_registered_key build_combined_delta_proto_payload
  combined_delta s rc since_time =
      build_combined_delta_proto_payload c (has_registered_key s rc)
        (cached s (to_delta_request_context rc).sdk_key) since_time
