-- ===== src/IdList/Worker/Commit.antt =====
-- The writes of `worker/reload.rs` to the state of a list, `initialize_load` and `commit_reload`, and
-- the calls of the dictionary and `ensure_current_version_persisted` of `worker/run.rs`.
use mathlib.Core.Logic.{inl, inr}
use statsig_forward_proxy.Prelude.{
  ℕ, Bool, true, false, Option, none, some, List, [], ◌∷◌, ◌++◌, Text, codes, text_beq, is_empty,
  to_string, if◌then◌else◌,
}
use statsig_forward_proxy.IdList.Schema.State.{
  IdListMetadata, ListSyncState, version_field, file_id_field, url_field, creation_time_field,
  size_field, cardinality_field, loading_cardinality_field, reconcile_required_field,
  loading_version_field, loading_size_field, diff_partition_field, removal_fanout_complete_field,
  reverse_index_disabled_field,
}
use statsig_forward_proxy.IdList.Schema.Keys.{
  dict_key, fwd_key, state_key, all_lists_key, version_tag,
}
use statsig_forward_proxy.IdList.Schema.Tokens.{get_or_allocate_token, get_token}
use statsig_forward_proxy.IdList.Worker.Redis.{
  Command, set_add, hash_set, hash_delete, hash_replace, expire, persist, Redis, query,
}
use statsig_forward_proxy.IdList.Worker.Config.{WorkerConfig}
use statsig_forward_proxy.IdList.Worker.Step.{redis_error, Step}

abbrev pub one : Text
one = codes "1"

abbrev pub when_list : Bool → List Command → List Command
when_list true cs = cs
when_list false cs = []

unfoldable pub initialize_commands : Text → Text → List Command
initialize_commands key version =
    hash_set key ((loading_version_field, version) ∷ (loading_size_field, codes "0") ∷ [])
    ∷ hash_delete key
        (diff_partition_field ∷ loading_cardinality_field ∷ removal_fanout_complete_field ∷ [])
    ∷ []

-- The pipeline that publishes a version.
unfoldable pub publish_commands : Text → Text → Text → ℕ → IdListMetadata → List Command
publish_commands key all_key list cardinality meta =
    hash_set key (
      (version_field, version_tag meta)
      ∷ (file_id_field, meta.file_id)
      ∷ (url_field, meta.url)
      ∷ (creation_time_field, to_string meta.creation_time)
      ∷ (size_field, to_string meta.size)
      ∷ (cardinality_field, to_string cardinality)
      ∷ [])
    ∷ hash_delete key (
        loading_version_field ∷ loading_size_field ∷ reconcile_required_field ∷ diff_partition_field
        ∷ loading_cardinality_field ∷ removal_fanout_complete_field ∷ [])
    ∷ set_add all_key list
    ∷ []

abbrev pub expire_old : ℕ → Text → Option Text → List Command
expire_old ttl new_key none = []
expire_old ttl new_key (some old) = if text_beq old new_key then [] else expire old ttl ∷ []

module _ (R : Redis) (key_prefix skh list : Text) (config : WorkerConfig) where
  unfoldable pub commit_reload : Text → Option Text → IdListMetadata → R.State → R.State
  unfolding publish_commands
  commit_reload new_key old_key meta s =
      let key = state_key key_prefix skh list in
      let published =
        query R s
          (publish_commands key (all_lists_key key_prefix skh) list (R.scard s new_key) meta) in
      query R published (
        when_list config.enable_reverse_index
          (hash_delete key (reverse_index_disabled_field ∷ []) ∷ [])
        ++ (persist new_key ∷ expire_old config.old_version_ttl_s new_key old_key))

  unfoldable pub ensure_current_version_persisted : ListSyncState → R.State → Bool × R.State
  ensure_current_version_persisted state s =
      let key = fwd_key key_prefix skh list state.version in
      if is_empty state.version
      then (false, s)
      else elim (R.ttl s key) [ none ↦ (false, s) | some t ↦ (true, R.perform s (persist key)) ]

  -- `DictClient::get_or_allocate_token` on the dictionary in Redis.
  unfoldable pub allocate : Step R.State ℕ
  unfolding get_or_allocate_token
  allocate s =
      let key = dict_key key_prefix skh in
      elim (get_or_allocate_token (R.hgetall s key) list) [
        | none ↦ (inl redis_error, s)
        | some (dict, token) ↦ (inr token, R.perform s (hash_replace key dict))
      ]

  unfoldable pub lookup : Step R.State (Option ℕ)
  unfolding get_token
  lookup s = elim (get_token (R.hgetall s (dict_key key_prefix skh)) list) [
    | none ↦ (inl redis_error, s)
    | some token ↦ (inr token, s)
  ]
