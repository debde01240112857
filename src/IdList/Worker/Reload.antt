-- ===== src/IdList/Worker/Reload.antt =====
-- `apply_delta` of `worker/delta.rs` and `apply_full_reload` of `worker/reload.rs`.
pub mod Rebuild
pub mod Publish
use mathlib.Core.Logic.{inl, inr}
use statsig_forward_proxy.Prelude.{
  ℕ, Bool, true, false, not, ◌&&◌, ◌||◌, Option, none, some, List, [], ◌∷◌, ◌++◌, ◌⊎◌, Text, codes,
  text_beq, get, text_eq, is_empty, is_some, unwrap_or, ltb, ◌==◌, to_string, parse_u64,
  if◌then◌else◌,
}
use statsig_forward_proxy.IdList.Schema.State.{
  IdListMetadata, ListSyncState, loading_cardinality_field, reconcile_required_field,
  diff_partition_field, reverse_index_disabled_field,
}
use statsig_forward_proxy.IdList.Schema.Keys.{
  fwd_key, state_key, all_lists_key, ready_key, version_tag,
}
use statsig_forward_proxy.IdList.Parser.Decoder.{Bytes}
use statsig_forward_proxy.IdList.Worker.Redis.{
  Command, set_add, hash_set, hash_delete, unlink, Redis, query,
}
use statsig_forward_proxy.IdList.Worker.Config.{WorkerConfig}
use statsig_forward_proxy.IdList.Worker.Step.{
  WorkerError, redis_error, invalid_task, invalid_file, ended_early, scan_verification, Step, fail,
  done, ◌>>=◌,
}
use statsig_forward_proxy.IdList.Worker.Task.{TaskMetadata, as_idlist_metadata}
use statsig_forward_proxy.IdList.Worker.Apply.{
  FileApplyMode, delta, load, StreamApplyResult, apply_file_stream,
}
use statsig_forward_proxy.IdList.Worker.Scan.{renew_now, fanout_scan, clear_reverse_token}
use statsig_forward_proxy.IdList.Worker.Diff.{apply_streamed_diff}
use statsig_forward_proxy.IdList.Worker.Commit.{
  one, when_list, initialize_commands, commit_reload, ensure_current_version_persisted, allocate,
}

-- `download_file`: the answer of the origin for a URL, a first offset and the size of the file.
abbrev pub Download : Type 0
Download = Text → ℕ → ℕ → WorkerError ⊎ List (WorkerError ⊎ Bytes)

-- A download that ends before the size of the task.
abbrev pub require_size : {S : Type 0} → ℕ → StreamApplyResult → Step S Unit
require_size size applied =
    if ltb applied.checkpoint size
    then fail (invalid_file (ended_early applied.checkpoint size applied.partial_trailing_line))
    else done tt

-- An optional `u64` of a hash, as the Redis client reads it.
abbrev pub read_u64 : {S : Type 0} → Option Text → Step S (Option ℕ)
read_u64 none = done none
read_u64 (some v) = elim (parse_u64 v) [ none ↦ fail redis_error | some n ↦ done (some n) ]

abbrev pub differs : Option ℕ → ℕ → Bool
differs none n = false
differs (some m) n = not (m == n)

abbrev loads : Option Text → Text → Bool
loads none version = false
loads (some v) version = text_beq v version

module _ (R : Redis) (key_prefix skh list : Text) (config : WorkerConfig)
    (download : Download) where
  unfoldable pub apply_delta : ListSyncState → TaskMetadata → Step R.State Unit
  unfolding ensure_current_version_persisted allocate apply_file_stream
  apply_delta state meta s =
      if not (text_beq meta.file_id state.file_id)
      then (inl (invalid_task (codes "delta file_id does not match state")), s)
      else (allocate R key_prefix skh list config >>= λ token.
            apply_file_stream R key_prefix skh config
              (delta token (fwd_key key_prefix skh list state.version)
                (state_key key_prefix skh list))
              state.size (download meta.url state.size meta.size)
            >>= require_size meta.size)
          (ensure_current_version_persisted R key_prefix skh list config state s).1

  -- The committed forward set is what the manifest asks for, and only the index is missing.
  abbrev repairable : ListSyncState → TaskMetadata → Bool
  repairable state meta =
      config.enable_reverse_index
      && (state.reverse_index_disabled
          && (not (is_empty state.version)
              && (text_beq state.file_id meta.file_id
                  && ((state.size == meta.size) && not (is_some state.loading_version)))))

  -- The index is cleared of the token, and filled from the forward set.
  unfoldable pub rebuild_index : Text → ℕ → ℕ → Step R.State Unit
  unfolding clear_reverse_token fanout_scan
  rebuild_index forward token cardinality =
      clear_reverse_token R key_prefix skh config token >>= λ _.
      fanout_scan R key_prefix skh config token forward true cardinality

  unfoldable pub reconcile_committed_forward : ListSyncState → TaskMetadata → Step R.State Bool
  unfolding ensure_current_version_persisted allocate rebuild_index renew_now
  reconcile_committed_forward state meta s =
      let forward = fwd_key key_prefix skh list state.version in
      let cardinality = R.scard s forward in
      let key = state_key key_prefix skh list in
      if not (repairable state meta)
      then (inr false, s)
      else if differs state.cardinality cardinality || not (is_some state.cardinality)
      then (inr false, s)
      else (allocate R key_prefix skh list config >>= λ token.
            rebuild_index forward token cardinality >>= λ _. renew_now R >>= λ _ t. (
              inr true,
              R.perform t
                  (hash_delete key (reverse_index_disabled_field ∷ reconcile_required_field ∷ [])),
            ))
          (query R (ensure_current_version_persisted R key_prefix skh list config state s).1 (
            hash_set key ((reconcile_required_field, one) ∷ [])
            ∷ unlink (ready_key key_prefix skh)
            ∷ []))

  -- What a reload knows after its first checks: whether it resumes an earlier load, and whether the
  -- index has to be rebuilt.
  pub record Plan : Type 0 where
    pub resume : Bool
    pub reconcile : Bool

  unfoldable pub plan_reload : ListSyncState → Text → R.State → Plan
  plan_reload state new_version s =
      let matching = loads state.loading_version new_version in
      let old_missing =
        not (is_empty state.version)
        && (ltb 0 (unwrap_or state.cardinality state.size)
            && not (R.exists s (fwd_key key_prefix skh list state.version))) in
      let pending_missing =
        matching
        && (ltb 0 (unwrap_or state.loading_cardinality (unwrap_or state.loading_size 0))
            && not (R.exists s (fwd_key key_prefix skh list new_version))) in
      record {
        resume = matching && not pending_missing;
        reconcile =
            state.reconcile_required
            || ((config.enable_reverse_index && state.reverse_index_disabled)
                || (old_missing
                    || (pending_missing || (is_some state.loading_version && not matching))));
      }

  -- The list is registered before anything else, and the intent to rebuild the index is kept.
  abbrev register_commands : Bool → List Command
  register_commands reconcile =
      set_add (all_lists_key key_prefix skh) list
      ∷ when_list reconcile (
          unlink (ready_key key_prefix skh)
          ∷ hash_set (state_key key_prefix skh list) ((reconcile_required_field, one) ∷ [])
          ∷ [])

  abbrev start_commands : Bool → Text → List Command
  start_commands resume new_version = when_list (not resume) (
      unlink (fwd_key key_prefix skh list new_version)
      ∷ initialize_commands (state_key key_prefix skh list) new_version)

  unfoldable pub prepare : Plan → Text → R.State → R.State
  unfolding initialize_commands
  prepare plan new_version s =
      query R (query R s (register_commands plan.reconcile))
        (start_commands plan.resume new_version)

  -- The file from the checkpoint on, unless it is there already: the size that is loaded.
  unfoldable pub load_rest : TaskMetadata → Text → ℕ → Step R.State ℕ
  unfolding apply_file_stream
  load_rest meta new_key loading_size =
      if ltb loading_size meta.size
      then (apply_file_stream R key_prefix skh config (load new_key (state_key key_prefix skh list))
            loading_size (download meta.url loading_size meta.size)
          >>= λ applied. require_size meta.size applied >>= λ _. done applied.checkpoint)
      else done loading_size

  -- The partition at which the difference begins, and the size that is loaded.
  unfoldable pub load_file : TaskMetadata → Text → ℕ → Option ℕ → Step R.State (ℕ × ℕ)
  unfolding load_rest
  load_file meta new_key loading_size (some partition) = done (partition, loading_size)
  load_file meta new_key loading_size none = load_rest meta new_key loading_size >>= λ size s. (
    inr (0, size),
    R.perform s (hash_set (state_key key_prefix skh list) ((diff_partition_field, codes "0") ∷ [])),
  )

  -- A committed set that is gone by now calls for a rebuild too.
  unfoldable pub recheck : ListSyncState → Bool → Option Text → ℕ → R.State → Bool × R.State
  recheck state reconcile old_key old_card s =
      if is_some old_key && (ltb 0 (unwrap_or state.cardinality state.size) && (old_card == 0))
      then (
        true,
        query R s (
            hash_set (state_key key_prefix skh list) ((reconcile_required_field, one) ∷ [])
            ∷ unlink (ready_key key_prefix skh)
            ∷ []),
      )
      else (reconcile, s)

  abbrev old_cardinality : Option Text → R.State → ℕ
  old_cardinality none s = 0
  old_cardinality (some key) s = R.scard s key

  unfoldable pub update_index :
      (Text → ℕ → ℕ) → ListSyncState → Bool → Option Text → Text → ℕ → ℕ → Step R.State Unit
  unfolding recheck rebuild_index apply_streamed_diff
  update_index partition_for state reconcile old_key new_key token partition s =
      let old_card = old_cardinality old_key s in
      let new_card = R.scard s new_key in
      let key = state_key key_prefix skh list in
      (read_u64 (get loading_cardinality_field (R.hgetall s key)) >>= λ expected.
      if differs expected new_card
      then fail (scan_verification (codes "pending forward set changed after download"))
      else λ t.
          let (rebuild, u) = recheck state reconcile old_key old_card t in
          if config.enable_reverse_index && rebuild
          then rebuild_index new_key token new_card u
          else if config.enable_reverse_index
          then apply_streamed_diff R key_prefix skh config token partition_for old_key new_key key
              partition old_card new_card u
          else (inr tt, u))
        s

  -- The size that is published is the one that is loaded.
  abbrev committed : TaskMetadata → ℕ → IdListMetadata
  committed meta size = record (as_idlist_metadata meta) { size = size }

  unfoldable pub reload : (Text → ℕ → ℕ) → ListSyncState → TaskMetadata → Step R.State Unit
  unfolding plan_reload prepare allocate load_file update_index renew_now commit_reload
      as_idlist_metadata
  reload partition_for state meta s =
      let new_version = version_tag (as_idlist_metadata meta) in
      let new_key = fwd_key key_prefix skh list new_version in
      let plan = plan_reload state new_version s in
      let old_key =
        if not (is_empty state.version) && not (text_beq state.version new_version)
        then some (fwd_key key_prefix skh list state.version)
        else none in
      (allocate R key_prefix skh list config >>= λ token.
      load_file meta new_key (if plan.resume then unwrap_or state.loading_size 0 else 0)
        (if plan.resume then state.diff_partition else none)
      >>= λ loaded.
          update_index partition_for state plan.reconcile old_key new_key token loaded.0 >>= λ _.
          renew_now R >>= λ _ t. (
            inr tt,
            commit_reload R key_prefix skh list config new_key old_key (committed meta loaded.1) t,
          ))
        (prepare plan new_version s)

  unfoldable pub apply_full_reload :
      (Text → ℕ → ℕ) → ListSyncState → TaskMetadata → Step R.State Unit
  unfolding reconcile_committed_forward reload
  apply_full_reload partition_for state meta =
      reconcile_committed_forward state meta >>= λ repaired.
      if repaired then done tt else reload partition_for state meta
