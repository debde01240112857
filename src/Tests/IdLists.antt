-- ===== src/Tests/IdLists.antt =====
-- Id lists: planning, the queue, the decoder, the lock and the Redis schema.
use mathlib.Core.Logic.{inr}
use statsig_forward_proxy.Prelude.{
  ◌≡◌, refl, true, false, Option, none, some, Map, get, insert, any, text_beq, if◌then◌else◌, List,
  [], ◌∷◌, Text, codes, text_eq, text_beq_ne, arith,
}
use statsig_forward_proxy.IdList.Namespaces.{
  IdListManifestEntry, IdListManifest, CompanyManifest, company_manifests, collisions_of, owners_of,
  plan_keys, plan_key, add_manifest, add_entry,
}
use statsig_forward_proxy.IdList.Namespaces.Union.{planned, sees, company_manifests-union}
use statsig_forward_proxy.IdList.Schema.State.{
  IdListMetadata, ListSyncState, to_hash_fields, from_hash_fields, hset,
  from_hash_fields-to_hash_fields,
}
use statsig_forward_proxy.IdList.Schema.Keys.{encode_task, decode_task}
use statsig_forward_proxy.IdList.Schema.Codec.{
  NoColon, decode_task-encode_task, fwd_key-injective, version_tag-injective,
}
use statsig_forward_proxy.IdList.Planning.Decide.{
  SyncAction, full_load, delta, remove, DerivedTask, needs_work_from, needs_work_with_reverse_index,
  sync_target, plan_sync_with_reverse_index,
}
use statsig_forward_proxy.IdList.Planning.Laws.{Justified, plan_sync-Justified, plan_sync-converges}
use statsig_forward_proxy.IdList.Planning.Order.{order_and_dedupe_tasks}
use statsig_forward_proxy.IdList.Planning.Queue.{IsQueue, order_and_dedupe-IsQueue}
use statsig_forward_proxy.IdList.Parser.Decoder.{
  DecodedLine, CompleteLineDecoder, new, decode_from, line_change, parse_change_line, utf8_from,
  push,
}
use statsig_forward_proxy.IdList.Parser.Chunks.{push_all, push_all-concat}
use statsig_forward_proxy.IdList.Parser.Offsets.{Resumes, push-new-Resumes}
use statsig_forward_proxy.IdList.Lock.{
  renews, acquires, try_acquire, renew, holder, run, try_acquire-exclusive,
}

abbrev state : ListSyncState
state = record {
  reverse_index_disabled = false;
  version = codes "f1@100";
  file_id = codes "f1";
  url = codes "u";
  creation_time = 100;
  size = 50;
  cardinality = some 7;
  loading_cardinality = none;
  reconcile_required = false;
  loading_version = none;
  loading_size = none;
  diff_partition = some 2;
}

abbrev grown : IdListMetadata
grown = record { file_id = codes "f1"; creation_time = 100; url = codes "u"; size = 80 }

grown-plan : plan_sync_with_reverse_index (some state) grown true true ≡ some (delta 30, grown)
unfolding plan_sync_with_reverse_index needs_work_with_reverse_index sync_target needs_work_from
grown-plan = refl

plan_sync-Justified_example : Justified state (delta 30) grown
plan_sync-Justified_example =
    plan_sync-Justified state grown true true (delta 30) grown refl grown-plan

abbrev applied : ListSyncState
applied = record state { size = 80 }

plan_sync-converges_example : plan_sync_with_reverse_index (some applied) grown true true ≡ none
plan_sync-converges_example =
    plan_sync-converges (some state) grown true true true (delta 30) grown applied grown-plan
      (record {
        version = refl;
        file_id = refl;
        creation_time = refl;
        size = refl;
        loaded = refl;
        indexed = refl;
        forward = refl;
      })

abbrev task : Text → SyncAction → DerivedTask
task name action = record { skh = codes "skh"; list = name; action = action; meta = none }

abbrev tasks : List DerivedTask
tasks = task (codes "x") (delta 5) ∷ task (codes "y") remove ∷ task (codes "x") full_load ∷ []

order_and_dedupe-IsQueue_example : IsQueue tasks (order_and_dedupe_tasks tasks)
order_and_dedupe-IsQueue_example = order_and_dedupe-IsQueue tasks (omega arith)

push_all-concat_example :
    push_all (new 10) (codes "+a" ∷ codes "b\n-" ∷ codes "c\n+" ∷ [])
    ≡ push (new 10) (codes "+ab\n-c\n+")
push_all-concat_example =
    push_all-concat (new 10) (codes "+a" ∷ codes "b\n-" ∷ codes "c\n+" ∷ []) tt

abbrev two_lines : List DecodedLine
two_lines =
    record { change = some (record { add = true; member = codes "a" }); end_offset = 13 }
    ∷ record { change = some (record { add = false; member = codes "b" }); end_offset = 16 }
    ∷ []

abbrev rest_pending : CompleteLineDecoder
rest_pending = record { pending = codes "+"; next_offset = 16 }

push-new-Resumes_example : Resumes 10 (codes "+a\n-b\n+") rest_pending two_lines
unfolding push decode_from line_change parse_change_line utf8_from
push-new-Resumes_example = push-new-Resumes 10 (codes "+a\n-b\n+") two_lines rest_pending refl

abbrev pod_a : Text
pod_a = codes "a"

abbrev pod_b : Text
pod_b = codes "b"

try_acquire-exclusive_example :
    ((try_acquire pod_b 9 25 (
        run ((5, acquires pod_b 9) ∷ (12, renews pod_a 30) ∷ []) (try_acquire pod_a 30 0 none).0)).1
      ≡ false)
    × ((renew pod_b 9 25 (
          run
            ((5, acquires pod_b 9) ∷ (12, renews pod_a 30) ∷ [])
            (try_acquire pod_a 30 0 none).0)).1
        ≡ false)
    × (holder 25
          (run ((5, acquires pod_b 9) ∷ (12, renews pod_a 30) ∷ []) (try_acquire pod_a 30 0 none).0)
        ≡ some pod_a)
unfolding try_acquire
try_acquire-exclusive_example =
    try_acquire-exclusive pod_a pod_b 30 9 0 25 none
      ((5, acquires pod_b 9) ∷ (12, renews pod_a 30) ∷ []) refl
      (omega arith, ((omega arith, inr (omega arith)), tt)) (omega arith)
      (text_beq_ne pod_b pod_a refl)

from_hash_fields-to_hash_fields_example : from_hash_fields (hset (to_hash_fields state) []) ≡ state
from_hash_fields-to_hash_fields_example = from_hash_fields-to_hash_fields state (record {
  creation_time = omega arith;
  size = omega arith;
  cardinality = omega arith;
  loading_cardinality = omega arith;
  loading_size = omega arith;
  diff_partition = omega arith;
})

ns-NoColon : NoColon (codes "ns")
ns-NoColon = (omega arith, (omega arith, tt))

decode_task-encode_task_example :
    decode_task (encode_task (codes "ns") (codes "a::b%")) ≡ some (codes "ns", codes "a::b%")
decode_task-encode_task_example = decode_task-encode_task (codes "ns") (codes "a::b%") ns-NoColon

fwd_key-injective_example :
    (codes "ns" ≡ codes "ns") × (codes "l:1" ≡ codes "l:1") × (codes "v" ≡ codes "v")
fwd_key-injective_example =
    fwd_key-injective (codes "pre") (codes "ns") (codes "ns") (codes "l:1") (codes "l:1")
      (codes "v") (codes "v") ns-NoColon ns-NoColon refl

version_tag-injective_example :
    (grown.file_id ≡ grown.file_id) × (grown.creation_time ≡ grown.creation_time)
version_tag-injective_example = version_tag-injective grown grown refl

-- Two keys of one company that see different lists, and a key whose company is not known yet.
abbrev entry : Text → IdListManifestEntry
entry name = record {
  name = name;
  size = 3;
  url = codes "u";
  creation_time = 1;
  file_id = codes "f";
}

abbrev seen_by : Map Text IdListManifest
seen_by =
    (codes "a", (codes "staff", entry (codes "staff")) ∷ [])
    ∷ (codes "b", (codes "beta", entry (codes "beta")) ∷ [])
    ∷ []

abbrev discovered : Text → Option Text
discovered key = if text_beq key (codes "c") then none else some (codes "acme")

abbrev both_lists : Map Text CompanyManifest
both_lists =
    (
      codes "acme",
      record {
        lists = (codes "staff", entry (codes "staff")) ∷ (codes "beta", entry (codes "beta")) ∷ [];
        incomplete = true;
      },
    )
    ∷ []

union_planned :
    company_manifests (λ id. id) (codes "a" ∷ codes "b" ∷ codes "c" ∷ []) discovered seen_by
    ≡ inr (both_lists, 1)
unfolding company_manifests collisions_of owners_of plan_keys plan_key add_manifest add_entry get
    insert
union_planned = refl

company_manifests-union_example :
    planned (codes "acme") (codes "beta") both_lists
    ≡ any
        (λ key. sees (λ id. id) seen_by (codes "acme") (codes "beta") key (discovered key))
        (codes "a" ∷ codes "b" ∷ codes "c" ∷ [])
company_manifests-union_example =
    company_manifests-union (λ id. id) (codes "a" ∷ codes "b" ∷ codes "c" ∷ []) discovered seen_by
      (both_lists, 1) (codes "acme") (codes "beta") union_planned
