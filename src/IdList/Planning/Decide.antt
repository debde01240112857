-- ===== src/IdList/Planning/Decide.antt =====
-- `SyncAction`, `DerivedTask` and the decision for one list, `plan_sync_with_reverse_index`.
use mathlib.Core.Option
use statsig_forward_proxy.Prelude.{
  ℕ, ◌-◌, ◌/◌, max, Bool, true, ◌&&◌, not, Option, none, some, Text, codes, text_beq, if◌then◌else◌,
  is_empty, is_some, unwrap_or, ltb, leb, parse_u64,
}
use statsig_forward_proxy.IdList.Schema.State.{IdListMetadata, ListSyncState}

pub data SyncAction : Type 0 where
  full_load : SyncAction
  delta : ℕ → SyncAction
  remove : SyncAction

abbrev pub action_class : SyncAction → ℕ
action_class full_load = 0
action_class (delta lag) = 1
action_class remove = 2

abbrev pub action_lag : SyncAction → ℕ
action_lag full_load = 0
action_lag (delta lag) = lag
action_lag remove = 0

abbrev pub op_str : SyncAction → Text
op_str full_load = codes "load"
op_str (delta lag) = codes "load"
op_str remove = codes "remove"

pub record DerivedTask : Type 0 where
  pub skh : Text
  pub list : Text
  pub action : SyncAction
  pub meta : Option IdListMetadata

-- `needs_work_with_reverse_index` for a state that is there.
unfoldable pub needs_work_from : ListSyncState → IdListMetadata → Bool → Bool → Option SyncAction
needs_work_from state meta fwd_exists enable_reverse_index =
    if is_empty state.version
    then some full_load
    else if not (text_beq meta.file_id state.file_id)
    then (if ltb state.creation_time meta.creation_time then some full_load else none)
    else if enable_reverse_index && state.reverse_index_disabled
    then some full_load
    else if is_some state.loading_version
    then some full_load
    else if ltb 0 (unwrap_or state.cardinality state.size) && not fwd_exists
    then some full_load
    else if ltb state.size meta.size
    then some (delta (meta.size - state.size))
    else none

unfoldable pub needs_work_with_reverse_index :
    Option ListSyncState → IdListMetadata → Bool → Bool → Option SyncAction
unfolding needs_work_from
needs_work_with_reverse_index none meta fwd_exists enable_reverse_index = some full_load
needs_work_with_reverse_index (some state) meta fwd_exists enable_reverse_index =
    needs_work_from state meta fwd_exists enable_reverse_index

-- The metadata of the file that is committed.
abbrev pub committed_metadata : ListSyncState → IdListMetadata
committed_metadata state = record {
  file_id = state.file_id;
  creation_time = state.creation_time;
  url = state.url;
  size = state.size;
}

-- The manifest's file, or the committed one if the reverse index is to be repaired while the
-- manifest has an older file.
unfoldable pub sync_target : Option ListSyncState → IdListMetadata → Bool → IdListMetadata
sync_target none meta enable_reverse_index = meta
sync_target (some state) meta enable_reverse_index =
    if enable_reverse_index
      && (state.reverse_index_disabled
          && (not (is_empty state.version)
              && (not (text_beq meta.file_id state.file_id)
                  && leb meta.creation_time state.creation_time)))
    then committed_metadata state
    else meta

unfoldable pub plan_sync_with_reverse_index :
    Option ListSyncState → IdListMetadata → Bool → Bool → Option (SyncAction × IdListMetadata)
unfolding sync_target needs_work_with_reverse_index
plan_sync_with_reverse_index state meta fwd_exists enable_reverse_index =
    let target = sync_target state meta enable_reverse_index in
    Option.map (λ action. (action, target))
      (needs_work_with_reverse_index state target fwd_exists enable_reverse_index)

unfoldable pub needs_work : Option ListSyncState → IdListMetadata → Bool → Option SyncAction
unfolding plan_sync_with_reverse_index
needs_work state meta fwd_exists =
    Option.map (λ p. p.0) (plan_sync_with_reverse_index state meta fwd_exists true)

unfoldable pub producer_attempt_interval_s : ℕ → ℕ
producer_attempt_interval_s interval_s = max (interval_s / 4) 5

abbrev pub default_sync_interval_s : ℕ
default_sync_interval_s = 60

positive : Option ℕ → Option ℕ
positive none = none
positive (some v) = if ltb 0 v then some v else none

unfoldable pub parse_sync_interval : Option Text → ℕ
unfolding positive
parse_sync_interval none = default_sync_interval_s
parse_sync_interval (some raw) = unwrap_or (positive (parse_u64 raw)) default_sync_interval_s
