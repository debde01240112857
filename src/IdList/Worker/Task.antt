-- ===== src/IdList/Worker/Task.antt =====
-- `TaskMetadata` of `worker/core.rs`, and the fields that `enqueue_tasks` of `redis_syncer.rs` writes
-- for a task, which the worker reads back.
use mathlib.Core.Logic.{inl, inr}
use statsig_forward_proxy.Prelude.{
  ℕ, ◌≡◌, ◌≢◌, ◌≤◌, refl, false, Option, none, some, List, [], ◌∷◌, ◌++◌, ◌⊎◌, Text, codes,
  text_beq, text_eq, get, is_empty, unwrap_or, to_string, parse_u64, parse_u64-to_string, u64_max,
  if◌then◌else◌,
}
use statsig_forward_proxy.IdList.Schema.State.{
  IdListMetadata, Fields, hset, get-hset, file_id_field, url_field, creation_time_field, size_field,
}
use statsig_forward_proxy.IdList.Planning.Decide.{SyncAction, full_load, delta, remove}
use statsig_forward_proxy.IdList.Worker.Step.{WorkerError, invalid_task}
use statsig_forward_proxy.IdList.Worker.Config.{try_with, ok_or}

abbrev pub op_field : Text
op_field = codes "op"

abbrev pub task_op_load : Text
task_op_load = codes "load"

abbrev pub task_op_remove : Text
task_op_remove = codes "remove"

pub data TaskOp : Type 0 where
  load : TaskOp
  removal : TaskOp

pub record TaskMetadata : Type 0 where
  pub op : TaskOp
  pub file_id : Text
  pub creation_time : ℕ
  pub url : Text
  pub size : ℕ

unfoldable pub read_op : Fields → WorkerError ⊎ TaskOp
read_op fields = elim (get op_field fields) [
  | none ↦ inl (invalid_task (codes "task op is missing"))
  | some op ↦
      if text_beq op task_op_load
      then inr load
      else if text_beq op task_op_remove
      then inr removal
      else inl (invalid_task (codes "unsupported task op '" ++ (op ++ codes "'")))
]

unfoldable pub parse_number : Fields → Text → WorkerError ⊎ ℕ
parse_number fields field = elim (get field fields) [
  | none ↦ inl (invalid_task (field ++ codes " is missing"))
  | some value ↦ ok_or (parse_u64 value) (invalid_task (field ++ codes " is not an integer"))
]

abbrev parsed_or_default : Option Text → ℕ
parsed_or_default none = 0
parsed_or_default (some value) = unwrap_or (parse_u64 value) 0

unfoldable pub read_url : Fields → WorkerError ⊎ Text
read_url fields = elim (get url_field fields) [
  | none ↦ inl (invalid_task (codes "url is missing"))
  | some url ↦ if is_empty url then inl (invalid_task (codes "url is missing")) else inr url
]

unfoldable read_load : Fields → WorkerError ⊎ TaskMetadata
unfolding parse_number read_url try_with
read_load fields = try_with (parse_number fields creation_time_field) λ creation_time.
    try_with (read_url fields) λ url. try_with (parse_number fields size_field) λ size.
      inr (record {
        op = load;
        file_id = unwrap_or (get file_id_field fields) [];
        creation_time = creation_time;
        url = url;
        size = size;
      })

-- The rest of `from_hash`: the fields of a removal may all be missing.
unfoldable read_as : Fields → TaskOp → WorkerError ⊎ TaskMetadata
unfolding read_load
read_as fields load = read_load fields
read_as fields removal = inr (record {
  op = removal;
  file_id = unwrap_or (get file_id_field fields) [];
  creation_time = parsed_or_default (get creation_time_field fields);
  url = unwrap_or (get url_field fields) [];
  size = parsed_or_default (get size_field fields);
})

unfoldable pub from_hash : Fields → WorkerError ⊎ TaskMetadata
unfolding read_op read_as try_with
from_hash fields = try_with (read_op fields) (read_as fields)

unfoldable pub as_idlist_metadata : TaskMetadata → IdListMetadata
as_idlist_metadata meta = record {
  file_id = meta.file_id;
  creation_time = meta.creation_time;
  url = meta.url;
  size = meta.size;
}

-- The pairs of the `HSET` commands of `enqueue_tasks` for one task.
abbrev load_pairs : Option IdListMetadata → List (Text × Text)
load_pairs none = (op_field, task_op_load) ∷ []
load_pairs (some meta) =
    (op_field, task_op_load)
    ∷ (url_field, meta.url)
    ∷ (file_id_field, meta.file_id)
    ∷ (creation_time_field, to_string meta.creation_time)
    ∷ (size_field, to_string meta.size)
    ∷ []

unfoldable pub task_pairs : SyncAction → Option IdListMetadata → List (Text × Text)
task_pairs remove meta = (op_field, task_op_remove) ∷ []
task_pairs full_load meta = load_pairs meta
task_pairs (delta lag) meta = load_pairs meta

-- What the worker is to read of a task with the metadata of a file.
abbrev pub task_of : IdListMetadata → TaskMetadata
task_of meta = record {
  op = load;
  file_id = meta.file_id;
  creation_time = meta.creation_time;
  url = meta.url;
  size = meta.size;
}

read_load-pairs :
    (meta : IdListMetadata) (old : Fields)
    → is_empty meta.url ≡ false
    → meta.creation_time ≤ u64_max
    → meta.size ≤ u64_max
    → from_hash (hset (load_pairs (some meta)) old) ≡ inr (task_of meta)
unfolding from_hash read_op read_as read_load parse_number read_url try_with
read_load-pairs meta old url time size =
    let fields = hset (load_pairs (some meta)) old in
    let field = λ (k : Text). get-hset k (load_pairs (some meta)) old in
    rw
      (
        from_hash,
        read_op,
        parse_number,
        read_url,
        field op_field,
        field url_field,
        field file_id_field,
        field creation_time_field,
        field size_field,
        parse_u64-to_string meta.creation_time time,
        parse_u64-to_string meta.size size,
        url,
      )
      refl

-- A load that the producer enqueues is read by the worker as the metadata of its file, whatever an
-- earlier task has left in the hash, if the URL is not empty and the numbers are in range.
pub from_hash-task_pairs :
    (action : SyncAction) (meta : IdListMetadata) (old : Fields)
    → action ≢ remove
    → is_empty meta.url ≡ false
    → meta.creation_time ≤ u64_max
    → meta.size ≤ u64_max
    → from_hash (hset (task_pairs action (some meta)) old) ≡ inr (task_of meta)
unfolding task_pairs
from_hash-task_pairs full_load meta old ne url time size = read_load-pairs meta old url time size
from_hash-task_pairs (delta lag) meta old ne url time size = read_load-pairs meta old url time size
from_hash-task_pairs remove meta old ne url time size = absurd (ne refl)
