-- ===== src/IdList/Worker/Removal.antt =====
-- `apply_remove` of `worker/removal.rs`.
pub mod Cleanup
pub mod Cleared
use mathlib.Core.Logic.{inl, inr}
use statsig_forward_proxy.Prelude.{
  ℕ, Bool, true, false, not, ◌&&◌, ◌||◌, Option, none, some, List, [], ◌∷◌, ◌++◌, ◌⊎◌, Text, codes,
  get, contains_key, text_eq, is_empty, is_some, unwrap_or, ltb, if◌then◌else◌,
}
use statsig_forward_proxy.IdList.Schema.State.{ListSyncState, removal_fanout_complete_field}
use statsig_forward_proxy.IdList.Schema.Keys.{
  dict_key, fwd_key, state_key, task_meta_key, all_lists_key,
}
use statsig_forward_proxy.IdList.Schema.Tokens.{name_field, token_field}
use statsig_forward_proxy.IdList.Worker.Redis.{
  Command, set_remove, hash_set, hash_delete, unlink, Redis, query,
}
use statsig_forward_proxy.IdList.Worker.Send.{ask, send}
use statsig_forward_proxy.IdList.Worker.Config.{WorkerConfig}
use statsig_forward_proxy.IdList.Worker.Step.{
  WorkerError, missing_dictionary_token, Step, fail, done, ◌>>=◌,
}
use statsig_forward_proxy.IdList.Worker.Scan.{fanout_scan, clear_reverse_token}
use statsig_forward_proxy.IdList.Worker.Commit.{one, when_list, lookup}

abbrev token_fields : Option ℕ → List Text
token_fields none = []
token_fields (some token) = token_field token ∷ []

abbrev pending_set : Text → Text → Text → Option Text → List Command
pending_set key_prefix skh list none = []
pending_set key_prefix skh list (some version) = unlink (fwd_key key_prefix skh list version) ∷ []

-- The pipeline that deletes the list; its state goes last.
unfoldable pub cleanup_commands : Text → Text → Text → ListSyncState → Option ℕ → List Command
cleanup_commands key_prefix skh list state token =
    pending_set key_prefix skh list state.loading_version
    ++ (unlink (fwd_key key_prefix skh list state.version)
        ∷ unlink (task_meta_key key_prefix skh list)
        ∷ hash_delete (dict_key key_prefix skh) (name_field list ∷ token_fields token)
        ∷ set_remove (all_lists_key key_prefix skh) list
        ∷ unlink (state_key key_prefix skh list)
        ∷ [])

module _ (R : Redis) (key_prefix skh list : Text) (config : WorkerConfig) where
  -- Whether the forward set does not tell all the members that may hold the token.
  unfoldable pub incomplete : ListSyncState → R.State → Bool
  incomplete state s =
      (ltb 0 (unwrap_or state.cardinality state.size)
        && not (R.exists s (fwd_key key_prefix skh list state.version)))
      || (state.reverse_index_disabled
          || (is_empty state.version
              || (is_some state.loading_version || state.reconcile_required)))

  -- Whether the forward set is there is only asked if it should have members.
  abbrev pub ask_missing : ListSyncState → Step R.State Unit
  ask_missing state s =
      if ltb 0 (unwrap_or state.cardinality state.size) then ask R s else (inr tt, s)

  -- The token is taken from every member: of the keys, or of the members of the forward set.
  unfoldable pub take_token : ListSyncState → ℕ → Step R.State Unit
  unfolding ask incomplete clear_reverse_token fanout_scan
  take_token state token =
      let forward = fwd_key key_prefix skh list state.version in
      ask_missing state >>= λ _ s.
      if incomplete state s
      then clear_reverse_token R key_prefix skh config token s
      else (ask R >>= λ _ t.
            fanout_scan R key_prefix skh config token forward false (R.scard t forward) t)
          s

  -- That is done before the forward set goes.
  unfoldable pub remove_token : ListSyncState → Bool → Option ℕ → Step R.State Unit
  unfolding take_token
  remove_token state fanout_complete none s =
      if config.enable_reverse_index && (not fanout_complete && not (is_empty state.version))
      then (inl missing_dictionary_token, s)
      else (inr tt, s)
  remove_token state fanout_complete (some token) s =
      if config.enable_reverse_index && not fanout_complete
      then take_token state token s
      else (inr tt, s)

  -- The mark that the fan-out is complete, unless it is there.
  unfoldable pub mark_complete : Bool → Step R.State Unit
  unfolding ask send
  mark_complete true = done tt
  mark_complete false = ask R >>= λ _.
      send R
        (hash_set (state_key key_prefix skh list) ((removal_fanout_complete_field, one) ∷ []) ∷ [])

  unfoldable pub apply_remove : ListSyncState → Step R.State Unit
  unfolding ask send lookup remove_token mark_complete cleanup_commands
  apply_remove state s =
      let key = state_key key_prefix skh list in
      let fanout_complete = contains_key removal_fanout_complete_field (R.hgetall s key) in
      (ask R >>= λ _. lookup R key_prefix skh list config >>= λ token.
      remove_token state fanout_complete token >>= λ _. mark_complete fanout_complete >>= λ _.
      ask R >>= λ _. send R (cleanup_commands key_prefix skh list state token))
        s
