-- ===== src/Tests/Workers.antt =====
-- The worker of the id lists, on a Redis in memory.
use mathlib.Core.Logic.{inl, inr}
use statsig_forward_proxy.Prelude.{
  ◌≡◌, ◌≢◌, refl, Bool, if◌then◌else◌, unwrap_or, text_beq, text_beq_refl, true, false, none, some,
  List, [], ◌∷◌, ◌⊎◌, Text, codes, text_eq, get, insert, to_string, parse_u64, arith,
}
use statsig_forward_proxy.IdList.Schema.State.{
  IdListMetadata, ListSyncState, hset, from_hash_fields, removal_fanout_complete_field,
}
use statsig_forward_proxy.IdList.Schema.Keys.{member_key, fwd_key, state_key, dict_key, version_tag}
use statsig_forward_proxy.IdList.Schema.Codec.{NoColon}
use statsig_forward_proxy.IdList.Schema.Tokens.{get_token, name_field}
use statsig_forward_proxy.IdList.Planning.Decide.{
  full_load, delta, remove, needs_work_with_reverse_index, sync_target,
  plan_sync_with_reverse_index,
}
use statsig_forward_proxy.IdList.Parser.Decoder.{
  Bytes, DecodedLine, CompleteLineDecoder, new, push, decode_from, line_change, parse_change_line,
  utf8_from,
}
use statsig_forward_proxy.IdList.Parser.Chunks.{concat}
use statsig_forward_proxy.IdList.Worker.Redis.{Redis, listed, query}
use statsig_forward_proxy.IdList.Worker.Step.{WorkerError, http_error, redis_error, Outcome}
use statsig_forward_proxy.IdList.Worker.Config.{
  WorkerConfig, default, from_env, not_present, IsValid, from_env-IsValid, try_with, validate,
  env_u64, reverse_index_enabled_from_env,
}
use statsig_forward_proxy.IdList.Worker.Task.{task_of, task_pairs, from_hash, from_hash-task_pairs}
use statsig_forward_proxy.IdList.Worker.Apply.{StreamApplyResult, delta, apply_file_stream}
use statsig_forward_proxy.IdList.Worker.Apply.Stream.{AppliedUpTo}
use statsig_forward_proxy.IdList.Worker.Apply.Modes.{delta_view}
use statsig_forward_proxy.IdList.Worker.Apply.Index.{Mirrors, apply_file_stream-Mirrors}
use statsig_forward_proxy.IdList.Worker.Apply.Success.{body, apply_file_stream-succeeds}
use statsig_forward_proxy.IdList.Worker.Commit.{commit_reload}
use statsig_forward_proxy.IdList.Worker.Reload.{Download, rebuild_index}
use statsig_forward_proxy.IdList.Worker.Reload.Rebuild.{rebuild_index-Mirrors}
use statsig_forward_proxy.IdList.Worker.Reload.Publish.{commit_reload-converges}
use statsig_forward_proxy.IdList.Worker.Removal.{apply_remove}
use statsig_forward_proxy.IdList.Worker.Removal.Cleared.{Gone, Resumable, apply_remove-Gone}
use statsig_forward_proxy.IdList.Schema.Apart.{fwd_key-member_key, text_beq-member_key}
use statsig_forward_proxy.IdList.Parser.Ranges.{partition_for}
use statsig_forward_proxy.IdList.Worker.Diff.{
  apply_streamed_diff, partition_count, recount, diff_partitions, diff_partition, scan_partition,
  partition_pages, extend, scan_new, visit_pages, visit_page, visit_member, finish_partition,
}
use statsig_forward_proxy.IdList.Worker.Scan.{
  renew_now, verify_scan_key_before, verify_scan_complete, fanout_members, chunks_from,
}
use statsig_forward_proxy.IdList.Worker.Diff.Applied.{apply_streamed_diff-Mirrors, Mirrors-Between}
use statsig_forward_proxy.Tests.Memory.{Memory, memory, memory-IsRedis}

abbrev key_prefix : Text
key_prefix = codes "sfp"

abbrev skh : Text
skh = codes "abc"

abbrev staff : Text
staff = codes "staff"

abbrev ver : Text
ver = codes "f1@5"

abbrev staff_state : Text
staff_state = codes "state"

abbrev config : WorkerConfig
config = record default { pipeline_batch_size = 1 }

-- The file: a member is added, a second one too, and the first is taken away again.
abbrev pieces : List Bytes
pieces = codes "+ann\n+b" ∷ codes "ob\n-ann\n" ∷ []

abbrev change_lines : List DecodedLine
change_lines =
    record { change = some (record { add = true; member = codes "ann" }); end_offset = 5 }
    ∷ record { change = some (record { add = true; member = codes "bob" }); end_offset = 10 }
    ∷ record { change = some (record { add = false; member = codes "ann" }); end_offset = 15 }
    ∷ []

abbrev decoder : CompleteLineDecoder
decoder = record { pending = []; next_offset = 15 }

decoded : push (new 0) (concat pieces) ≡ inr (change_lines, decoder)
unfolding push decode_from line_change parse_change_line utf8_from
decoded = refl

abbrev nothing : Memory
nothing = record { sets = []; hashes = [] }

apply_file_stream-succeeds_example :
    Outcome
      (λ e t. ⊥)
      (λ r t.
        AppliedUpTo
          (delta_view memory key_prefix skh staff ver staff_state 1)
          nothing
          change_lines
          t
        × (r.checkpoint ≡ 15)
        × (r.lines ≡ 3))
      (apply_file_stream memory key_prefix skh config
        (delta 1 (fwd_key key_prefix skh staff ver) staff_state)
        0
        (inr (body pieces))
        nothing)
apply_file_stream-succeeds_example =
    apply_file_stream-succeeds memory memory-IsRedis key_prefix skh staff ver staff_state config
      (record { answered = λ s. refl; uncut = λ s cs. refl }) (λ s. refl) 1 0 pieces nothing
      change_lines decoder refl decoded

-- The same list in a Redis that has its token, where the download breaks off.
abbrev named : Memory
named = record {
  sets = [];
  hashes = (dict_key key_prefix skh, (name_field staff, codes "1") ∷ []) ∷ [];
}

abbrev broken : List (WorkerError ⊎ Bytes)
broken = inr (codes "+ann\n+b") ∷ inl http_error ∷ []

-- The same list, with the lines before the break alone.
abbrev after_delta : Memory
after_delta =
    (apply_file_stream memory key_prefix skh config
      (delta 1 (fwd_key key_prefix skh staff ver) (state_key key_prefix skh staff)) 0
      (inr (inr (codes "+ann\n+b") ∷ [])) named).1

named-Mirrors : Mirrors memory key_prefix skh staff ver 1 named
unfolding to_string fwd_key member_key get
named-Mirrors = record { at = λ x. refl }

mirrored : Mirrors memory key_prefix skh staff ver 1 after_delta
unfolding apply_file_stream push utf8_from
mirrored =
    apply_file_stream-Mirrors memory memory-IsRedis key_prefix skh staff ver
      (state_key key_prefix skh staff) config 1 0 (inr (codes "+ann\n+b") ∷ []) named refl
      named-Mirrors

-- The same Redis, where every pipeline breaks after its first command: the member has the token, the
-- forward set does not have the member, and no checkpoint is stored.
abbrev breaking : Redis
breaking = record memory { cut = λ s cs. some 1 }

abbrev after_cut : (WorkerError ⊎ StreamApplyResult) × Memory
after_cut =
    apply_file_stream breaking key_prefix skh config
      (delta 1 (fwd_key key_prefix skh staff ver) staff_state) 0 (inr (inr (codes "+ann\n") ∷ []))
      named

cut_short :
    (after_cut.0 ≡ inl redis_error)
    × (after_cut.1
        ≡ record named { sets = (member_key key_prefix skh (codes "ann"), codes "1" ∷ []) ∷ [] })
unfolding apply_file_stream push utf8_from insert query get to_string
cut_short = (refl, refl)

abbrev no_download : Download
no_download url start size = inr []

-- A forward set with one member, of which the index knows nothing.
abbrev unindexed : Memory
unindexed = record {
  sets =
      (fwd_key key_prefix skh staff ver, codes "ann" ∷ [])
      ∷ (member_key key_prefix skh (codes "bob"), codes "1" ∷ [])
      ∷ [];
  hashes = [];
}

rebuild_index-Mirrors_example :
    Outcome
      (λ e t.
        (y : Text)
        → memory.sismember t (fwd_key key_prefix skh staff ver) y
          ≡ memory.sismember unindexed (fwd_key key_prefix skh staff ver) y)
      (λ u t.
        ((y : Text)
          → memory.sismember t (fwd_key key_prefix skh staff ver) y
            ≡ memory.sismember unindexed (fwd_key key_prefix skh staff ver) y)
        × Mirrors memory key_prefix skh staff ver 1 t)
      (rebuild_index memory key_prefix skh staff config no_download
        (fwd_key key_prefix skh staff ver)
        1
        1
        unindexed)
rebuild_index-Mirrors_example =
    rebuild_index-Mirrors memory memory-IsRedis key_prefix skh staff ver config no_download 1 1
      unindexed

abbrev file : IdListMetadata
file = record { file_id = codes "f1"; creation_time = 5; url = codes "https://u"; size = 15 }

from_hash-task_pairs_example :
    from_hash (hset (task_pairs full_load (some file)) ((codes "op", codes "remove") ∷ []))
    ≡ inr (task_of file)
from_hash-task_pairs_example =
    from_hash-task_pairs full_load file ((codes "op", codes "remove") ∷ []) differ refl
      (omega arith) (omega arith)
  where
    differ : full_load ≢ remove
    differ e = cc

env_defaults : from_env (λ name. not_present) ≡ inr default
unfolding from_env try_with validate env_u64 reverse_index_enabled_from_env
env_defaults = refl

from_env-IsValid_example : IsValid default
from_env-IsValid_example = from_env-IsValid (λ name. not_present) default env_defaults

abc_NoColon : NoColon skh
abc_NoColon = (omega arith, (omega arith, (omega arith, tt)))

planned : plan_sync_with_reverse_index none file false true ≡ some (full_load, file)
unfolding plan_sync_with_reverse_index needs_work_with_reverse_index sync_target
planned = refl

abbrev loaded : Memory
loaded = record { sets = (fwd_key key_prefix skh staff ver, codes "ann" ∷ []) ∷ []; hashes = [] }

abbrev committed : Memory
committed =
    commit_reload memory key_prefix skh staff config
      (fwd_key key_prefix skh staff (version_tag file)) none file loaded

commit_reload-converges_example :
    plan_sync_with_reverse_index
      (some (from_hash_fields (memory.hgetall committed (state_key key_prefix skh staff))))
      file
      (memory.exists committed (fwd_key key_prefix skh staff (version_tag file)))
      true
    ≡ none
unfolding get fwd_key version_tag to_string
commit_reload-converges_example =
    commit_reload-converges memory memory-IsRedis key_prefix skh staff config file none loaded none
      file false full_load abc_NoColon (omega arith) (omega arith) (omega arith) planned

abbrev removable : ListSyncState
removable = record {
  reverse_index_disabled = false;
  version = ver;
  file_id = codes "f1";
  url = codes "https://u";
  creation_time = 5;
  size = 5;
  cardinality = some 1;
  loading_cardinality = none;
  reconcile_required = false;
  loading_version = none;
  loading_size = none;
  diff_partition = none;
}

not_fanned_out :
    get removal_fanout_complete_field (memory.hgetall after_delta (state_key key_prefix skh staff))
    ≡ none
unfolding get apply_file_stream state_key push utf8_from insert query dict_key hset
not_fanned_out = refl

still_named : get_token (memory.hgetall after_delta (dict_key key_prefix skh)) staff ≡ some (some 1)
unfolding get apply_file_stream get_token push utf8_from insert query dict_key state_key parse_u64
still_named = refl

apply_remove-Gone_example :
    Outcome
      (λ e t. Resumable memory memory-IsRedis key_prefix skh staff config ver 1 after_delta t)
      (λ u t. Gone memory memory-IsRedis key_prefix skh staff config 1 ver t)
      (apply_remove memory key_prefix skh staff config removable after_delta)
apply_remove-Gone_example =
    apply_remove-Gone memory memory-IsRedis key_prefix skh staff config removable 1 after_delta refl
      not_fanned_out still_named mirrored

-- Two versions of a list, and an index of the first one.
abbrev next_ver : Text
next_ver = codes "f2@6"

abbrev two_versions : Memory
two_versions = record {
  sets =
      (fwd_key key_prefix skh staff ver, codes "ann" ∷ [])
      ∷ (fwd_key key_prefix skh staff next_ver, codes "bob" ∷ [])
      ∷ (member_key key_prefix skh (codes "ann"), codes "1" ∷ [])
      ∷ [];
  hashes = [];
}

two_versions-Mirrors : Mirrors memory key_prefix skh staff ver 1 two_versions
unfolding get to_string
two_versions-Mirrors = record {
  at = λ x.
      rw
        (
          fwd_key-member_key key_prefix skh x staff ver,
          fwd_key-member_key key_prefix skh x staff next_ver,
          text_beq-member_key key_prefix skh (codes "ann") x,
          text_beq_refl (fwd_key key_prefix skh staff ver),
        )
        (by_test (text_beq (codes "ann") x));
}
  where
    by_test :
        (b : Bool)
        → listed (codes "1") (unwrap_or (if b then some (codes "1" ∷ []) else none) [])
          ≡ (if b then true else false)
    by_test true = refl
    by_test false = refl

abbrev after_diff : Memory
after_diff =
    (apply_streamed_diff memory key_prefix skh config 1 (partition_for (λ m. m))
      (some (fwd_key key_prefix skh staff ver)) (fwd_key key_prefix skh staff next_ver) staff_state
      0 1 1 two_versions).1

apply_streamed_diff-Mirrors_example :
    Mirrors memory key_prefix skh staff next_ver 1 after_diff
    × ((list' ver y : Text)
        → memory.sismember after_diff (fwd_key key_prefix skh list' ver) y
          ≡ memory.sismember two_versions (fwd_key key_prefix skh list' ver) y)
unfolding apply_streamed_diff partition_count recount diff_partitions diff_partition scan_partition
    partition_pages extend renew_now verify_scan_key_before verify_scan_complete scan_new
    visit_pages visit_page visit_member finish_partition fanout_members chunks_from partition_for
    query get to_string insert fwd_key
apply_streamed_diff-Mirrors_example =
    apply_streamed_diff-Mirrors memory memory-IsRedis key_prefix skh config 1 (λ m. m) staff ver
      next_ver staff_state 0 1 1 two_versions (omega arith) (omega arith)
      (Mirrors-Between memory memory-IsRedis key_prefix skh config 1 (λ m. m) staff ver next_ver
        staff_state 1 two_versions two_versions-Mirrors)
