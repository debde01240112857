-- ===== src/IdList/Worker/Apply.antt =====
-- `apply_file_batch` and `apply_file_stream` of `worker/delta.rs`: the lines of a file in batches,
-- each batch a pipeline of set commands, and after it the checkpoint.
pub mod Batches
pub mod Cut
pub mod Lines
pub mod Stream
pub mod Checkpoint
pub mod Chunks
pub mod Modes
pub mod Index
pub mod Success
use mathlib.Core.Logic.{inl, inr}
use statsig_forward_proxy.Prelude.{
  ℕ, ◌+◌, ◌*◌, Bool, true, false, not, ◌&&◌, Option, none, some, List, [], ◌∷◌, ◌++◌, Text, ◌⊎◌,
  any, length, ltb, leb, to_string, if◌then◌else◌,
}
use statsig_forward_proxy.IdList.Schema.State.{
  size_field, loading_size_field, cardinality_field, loading_cardinality_field,
}
use statsig_forward_proxy.IdList.Schema.Keys.{member_key}
use statsig_forward_proxy.IdList.Parser.Decoder.{
  Bytes, FileChange, DecodedLine, CompleteLineDecoder, Decoded, new, push, has_partial_line,
}
use statsig_forward_proxy.IdList.Worker.Redis.{
  Command, set_add, set_remove, hash_set, expire, Redis, query,
}
use statsig_forward_proxy.IdList.Worker.Send.{ask, send, send_atomic}
use statsig_forward_proxy.IdList.Worker.Config.{WorkerConfig}
use statsig_forward_proxy.IdList.Worker.Step.{
  WorkerError, invalid_file, invalid_line, lock_lost, Step, fail, done, ◌>>=◌,
}

-- The life of a forward set that is not yet published.
abbrev pub pending_version_ttl_s : ℕ
pending_version_ttl_s = 24 * 60 * 60

-- The token, the key of the forward set and that of the state.
pub data FileApplyMode : Type 0 where
  delta : ℕ → Text → Text → FileApplyMode
  load : Text → Text → FileApplyMode

abbrev pub forward_of : FileApplyMode → Text
forward_of (delta token forward_key state_key) = forward_key
forward_of (load forward_key state_key) = forward_key

abbrev pub is_load : FileApplyMode → Bool
is_load (delta token forward_key state_key) = false
is_load (load forward_key state_key) = true

-- `SADD` or `SREM`.
abbrev pub set_command : Bool → Text → Text → Command
set_command true k m = set_add k m
set_command false k m = set_remove k m

abbrev pub adds : List FileChange → Bool
adds = any (λ change. change.add)

abbrev pub when : Bool → Command → List Command
when true c = c ∷ []
when false c = []

module _ (key_prefix skh : Text) (config : WorkerConfig) where
  unfoldable pub delta_commands : ℕ → Text → List FileChange → List Command
  delta_commands token forward_key [] = []
  delta_commands token forward_key (change ∷ changes) =
      when config.enable_reverse_index
        (set_command change.add (member_key key_prefix skh change.member) (to_string token))
      ++ (set_command change.add forward_key change.member
          ∷ delta_commands token forward_key changes)

unfoldable pub load_commands : Text → List FileChange → List Command
load_commands forward_key [] = []
load_commands forward_key (change ∷ changes) =
    set_command change.add forward_key change.member ∷ load_commands forward_key changes

module _ (key_prefix skh : Text) (config : WorkerConfig) where
  unfoldable pub batch_commands : FileApplyMode → List FileChange → Bool → List Command
  unfolding delta_commands load_commands
  batch_commands (delta token forward_key state_key) changes first =
      delta_commands key_prefix skh config token forward_key changes
  batch_commands (load forward_key state_key) changes first =
      load_commands forward_key changes
      ++ when (first && adds changes) (expire forward_key pending_version_ttl_s)

-- The checkpoint and the cardinality, with the fields that the mode has for them.
unfoldable pub checkpoint_command : FileApplyMode → ℕ → ℕ → Command
checkpoint_command (delta token forward_key state_key) checkpoint cardinality =
    hash_set state_key
      ((size_field, to_string checkpoint) ∷ (cardinality_field, to_string cardinality) ∷ [])
checkpoint_command (load forward_key state_key) checkpoint cardinality = hash_set state_key (
    (loading_size_field, to_string checkpoint)
    ∷ (loading_cardinality_field, to_string cardinality)
    ∷ [])

-- The variables of the loop.
pub record Loop : Type 0 where
  pub decoder : CompleteLineDecoder
  pub batch : List FileChange
  pub batch_checkpoint : ℕ
  pub applied_lines : ℕ
  pub first_load_batch : Bool

pub record StreamApplyResult : Type 0 where
  pub lines : ℕ
  pub checkpoint : ℕ
  pub partial_trailing_line : Bool

-- `batch.push(change)`.
unfoldable pub add_line : DecodedLine → Loop → Loop
add_line line loop = elim line.change [
  | none ↦ record loop { batch_checkpoint = line.end_offset }
  | some change ↦ record loop {
    batch = loop.batch ++ (change ∷ []);
    batch_checkpoint = line.end_offset;
    applied_lines = loop.applied_lines + 1;
  }
]

module _ (R : Redis) (key_prefix skh : Text) (config : WorkerConfig) (mode : FileApplyMode) where
  -- The mutations, which are atomic for a load, and then the checkpoint.
  abbrev pub send_batch : List Command → Step R.State Unit
  send_batch cs = if is_load mode then send_atomic R cs else send R cs

  abbrev pub send_checkpoint : ℕ → Step R.State Unit
  send_checkpoint checkpoint s =
      send R (checkpoint_command mode checkpoint (R.scard s (forward_of mode)) ∷ []) s

  unfoldable pub apply_file_batch : List FileChange → ℕ → Bool → Step R.State Unit
  unfolding batch_commands checkpoint_command ask send send_atomic
  apply_file_batch changes checkpoint first =
      ask R
      >>= (λ _. send_batch (batch_commands key_prefix skh config mode changes first))
      >>= (λ _. ask R)
      >>= λ _. send_checkpoint checkpoint

  -- The body of the inner loop, for one decoded line.
  unfoldable pub apply_line : DecodedLine → Loop → Step R.State Loop
  unfolding add_line apply_file_batch
  apply_line line loop s =
      let l = add_line line loop in
      if leb config.pipeline_batch_size (length l.batch)
      then (apply_file_batch l.batch l.batch_checkpoint l.first_load_batch >>= λ _. done (record l {
        batch = [];
        first_load_batch = l.first_load_batch && not (is_load mode && adds l.batch);
      }))
          s
      else (inr l, s)

  unfoldable pub apply_lines : List DecodedLine → Loop → Step R.State Loop
  unfolding apply_line
  apply_lines [] loop = done loop
  apply_lines (line ∷ lines) loop = apply_line line loop >>= apply_lines lines

  -- The lines of a chunk, or the error of its first bad line, before which none of them is applied.
  unfoldable pub apply_decoded : Decoded → Loop → Step R.State Loop
  unfolding apply_lines
  apply_decoded (inl e) loop s = (inl (invalid_file (invalid_line e)), s)
  apply_decoded (inr (lines, d)) loop s = apply_lines lines (record loop { decoder = d }) s

  unfoldable pub receive : WorkerError ⊎ Bytes → Loop → Step R.State Loop
  unfolding apply_decoded
  receive (inl e) loop = fail e
  receive (inr bytes) loop = apply_decoded (push loop.decoder bytes) loop

  -- One chunk of the download: the claim is tested first.
  unfoldable pub apply_chunk : WorkerError ⊎ Bytes → Loop → Step R.State Loop
  unfolding receive
  apply_chunk chunk loop s = if R.claim_lost s then (inl lock_lost, s) else receive chunk loop s

  unfoldable pub apply_chunks : List (WorkerError ⊎ Bytes) → Loop → Step R.State Loop
  unfolding apply_chunk
  apply_chunks [] loop = done loop
  apply_chunks (chunk ∷ chunks) loop = apply_chunk chunk loop >>= apply_chunks chunks

  -- `batch_checkpoint > start`: the rest of the lines, or a checkpoint past empty lines.
  unfoldable pub finish_batch : ℕ → Loop → Step R.State Unit
  unfolding apply_file_batch
  finish_batch start loop s =
      if ltb start loop.batch_checkpoint
      then apply_file_batch loop.batch loop.batch_checkpoint loop.first_load_batch s
      else (inr tt, s)

  unfoldable pub finish : ℕ → Loop → Step R.State StreamApplyResult
  unfolding finish_batch
  finish start loop = finish_batch start loop >>= λ _. done (record {
    lines = loop.applied_lines;
    checkpoint = loop.batch_checkpoint;
    partial_trailing_line = has_partial_line loop.decoder;
  })

  -- `download` is the answer of the origin: an error, or the chunks of the body.
  unfoldable pub apply_file_stream :
      ℕ → WorkerError ⊎ List (WorkerError ⊎ Bytes) → Step R.State StreamApplyResult
  unfolding apply_chunks finish
  apply_file_stream start (inl e) = fail e
  apply_file_stream start (inr chunks) =
      apply_chunks chunks (record {
        decoder = new start;
        batch = [];
        batch_checkpoint = start;
        applied_lines = 0;
        first_load_batch = true;
      })
      >>= finish start
