-- ===== src/IdList/Worker/Run.antt =====
-- `worker/run.rs`: what a worker does with the task that it takes from the queue.
use mathlib.Core.Logic.{inl, inr}
use statsig_forward_proxy.Prelude.{
  ℕ, Bool, true, false, not, ◌&&◌, Option, none, some, [], ◌∷◌, ◌⊎◌, Text, codes, contains_key,
  text_eq, is_empty, if◌then◌else◌,
}
use statsig_forward_proxy.IdList.Schema.State.{
  IdListMetadata, Fields, ListSyncState, from_hash_fields, removal_fanout_complete_field,
  reverse_index_disabled_field,
}
use statsig_forward_proxy.IdList.Schema.Keys.{
  dict_key, fwd_key, state_key, claim_key, task_meta_key, decode_task,
}
use statsig_forward_proxy.IdList.Planning.Decide.{
  SyncAction, full_load, delta, remove, plan_sync_with_reverse_index,
}
use statsig_forward_proxy.IdList.Worker.Redis.{hash_set, Redis, query}
use statsig_forward_proxy.IdList.Worker.Config.{WorkerConfig}
use statsig_forward_proxy.IdList.Worker.Step.{WorkerError, invalid_task, Step, fail, done, ◌>>=◌}
use statsig_forward_proxy.IdList.Worker.Task.{
  TaskOp, load, removal, TaskMetadata, from_hash, as_idlist_metadata,
}
use statsig_forward_proxy.IdList.Worker.Commit.{one, when_list, ensure_current_version_persisted}
use statsig_forward_proxy.IdList.Worker.Reload.{Download, apply_delta, apply_full_reload}
use statsig_forward_proxy.IdList.Worker.Removal.{apply_remove}

pub data WorkerAction : Type 0 where
  applies_delta : WorkerAction
  full_reload : WorkerAction
  removes : WorkerAction

pub data WorkerRunOutcome : Type 0 where
  idle : WorkerRunOutcome
  dropped : WorkerRunOutcome
  claim_conflict : WorkerRunOutcome
  completed : WorkerAction → WorkerRunOutcome

abbrev pub Work : Type 0
Work = WorkerAction × TaskMetadata

abbrev target_of : IdListMetadata → TaskMetadata
target_of target = record {
  op = load;
  file_id = target.file_id;
  creation_time = target.creation_time;
  url = target.url;
  size = target.size;
}

abbrev pub action_of : Option (SyncAction × IdListMetadata) → WorkerError ⊎ Option Work
action_of none = inr none
action_of (some (full_load, target)) = inr (some (full_reload, target_of target))
action_of (some (delta lag, target)) = inr (some (applies_delta, target_of target))
action_of (some (remove, target)) = inl (invalid_task (codes "load task resolved to remove"))

module _ (R : Redis) (key_prefix : Text) (config : WorkerConfig) (download : Download)
    (partition_for : Text → ℕ → ℕ) where
  unfoldable pub plan_work :
      Text → Text → Option ListSyncState → ListSyncState → TaskMetadata → Step R.State (Option Work)
  unfolding plan_sync_with_reverse_index ensure_current_version_persisted as_idlist_metadata
  plan_work skh list stored state meta s =
      let forward_exists =
        is_stored stored
        && (not (is_empty state.version)
            && R.exists s (fwd_key key_prefix skh list state.version)) in
      let plan =
        plan_sync_with_reverse_index stored (as_idlist_metadata meta) forward_exists
          config.enable_reverse_index in
      (
        action_of plan,
        if is_stored plan
            then s
            else (ensure_current_version_persisted R key_prefix skh list config state s).1,
      )
    where
      is_stored : {A : Type 0} → Option A → Bool
      is_stored none = false
      is_stored (some a) = true

  -- Updates that skip the index are recorded before the forward data changes.
  abbrev pub mark_disabled : Text → Text → R.State → R.State
  mark_disabled skh list s = query R s (
      when_list (not config.enable_reverse_index) (
        hash_set (dict_key key_prefix skh) ((reverse_index_disabled_field, one) ∷ [])
        ∷ hash_set (state_key key_prefix skh list) ((reverse_index_disabled_field, one) ∷ [])
        ∷ []))

  abbrev pub apply_action :
      Text → Text → ListSyncState → TaskMetadata → WorkerAction → Step R.State Unit
  apply_action skh list state meta applies_delta =
      apply_delta R key_prefix skh list config download state meta
  apply_action skh list state meta full_reload =
      apply_full_reload R key_prefix skh list config download partition_for state meta
  apply_action skh list state meta removes = apply_remove R key_prefix skh list config state

  unfoldable pub perform_work :
      Text → Text → ListSyncState → Option Work → Step R.State WorkerRunOutcome
  unfolding apply_delta apply_full_reload apply_remove
  perform_work skh list state none s = (inr dropped, s)
  perform_work skh list state (some (action, meta)) s =
      (apply_action skh list state meta action >>= λ _. done (completed action))
        (mark_disabled skh list s)

  abbrev pub removal_task : TaskMetadata
  removal_task = record { op = removal; file_id = []; creation_time = 0; url = []; size = 0 }

  -- The task: that of the queue, or the rest of a removal whose own task is deleted already.
  unfoldable pub read_task : Fields → Fields → WorkerError ⊎ Option TaskMetadata
  unfolding from_hash
  read_task meta_fields state_fields =
      if is_empty meta_fields && contains_key removal_fanout_complete_field state_fields
      then inr (some removal_task)
      else if is_empty meta_fields
      then inr none
      else elim (from_hash meta_fields) [ inl e ↦ inl e | inr meta ↦ inr (some meta) ]

  abbrev pub choose_work :
      Text
      → Text
      → Option ListSyncState
      → ListSyncState
      → TaskMetadata
      → TaskOp
      → Step R.State (Option Work)
  choose_work skh list stored state meta removal = done (some (removes, meta))
  choose_work skh list stored state meta load = plan_work skh list stored state meta

  abbrev pub with_task :
      Text
      → Text
      → Option ListSyncState
      → ListSyncState
      → WorkerError ⊎ Option TaskMetadata
      → Step R.State WorkerRunOutcome
  with_task skh list stored state (inl e) = fail e
  with_task skh list stored state (inr none) = done dropped
  with_task skh list stored state (inr (some meta)) =
      choose_work skh list stored state meta meta.op >>= perform_work skh list state

  unfoldable pub run_claimed : Text → Text → Step R.State WorkerRunOutcome
  unfolding read_task plan_work perform_work from_hash_fields
  run_claimed skh list s =
      let meta_fields = R.hgetall s (task_meta_key key_prefix skh list) in
      let state_fields = R.hgetall s (state_key key_prefix skh list) in
      let state = from_hash_fields state_fields in
      with_task skh list (if is_empty state_fields then none else some state) state
        (read_task meta_fields state_fields) s

  -- `popped` is what `ZPOPMIN` gave; `acquire` and `release` are the calls of the claim.
  unfoldable pub run_once :
      (Text → R.State → Bool × R.State)
      → (R.State → R.State)
      → Option Text
      → Step R.State WorkerRunOutcome
  unfolding decode_task run_claimed
  run_once acquire release none s = (inr idle, s)
  run_once acquire release (some task) s = elim (decode_task task) [
    | none ↦ (inr dropped, s)
    | some (skh, list) ↦
        let (held, t) = acquire (claim_key key_prefix skh list) s in
        let (result, u) = run_claimed skh list t in
        if held then (result, release u) else (inr claim_conflict, t)
  ]
