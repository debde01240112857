-- ===== src/IdList/Schema/State.antt =====
-- `IdListMetadata`, `ListSyncState` and their form as a Redis hash, a map from field to text.
use mathlib.Core.Option
use statsig_forward_proxy.Prelude.{
  ℕ, ◌≡◌, ◌≤◌, ◌∙◌, refl, ap, Bool, true, false, Option, none, some, List, [], ◌∷◌, ◌++◌, arith,
  Text, codes, text_beq, text_eq, if◌then◌else◌, Map, get, insert, contains_key, unwrap_or, is_some,
  to_string, parse_u64, parse_u64-to_string, parse_u32, parse_u32-to_string, u64_max, u32_max,
  get-insert,
}

pub record IdListMetadata : Type 0 where
  pub file_id : Text
  pub creation_time : ℕ
  pub url : Text
  pub size : ℕ

pub record ListSyncState : Type 0 where
  pub reverse_index_disabled : Bool
  pub version : Text
  pub file_id : Text
  pub url : Text
  pub creation_time : ℕ
  pub size : ℕ
  pub cardinality : Option ℕ
  pub loading_cardinality : Option ℕ
  pub reconcile_required : Bool
  pub loading_version : Option Text
  pub loading_size : Option ℕ
  pub diff_partition : Option ℕ

-- The names of the fields, `state_fields` and `REVERSE_INDEX_DISABLED`.
abbrev pub version_field : Text
version_field = codes "version"

abbrev pub file_id_field : Text
file_id_field = codes "file_id"

abbrev pub url_field : Text
url_field = codes "url"

abbrev pub creation_time_field : Text
creation_time_field = codes "creation_time"

abbrev pub size_field : Text
size_field = codes "size"

abbrev pub cardinality_field : Text
cardinality_field = codes "cardinality"

abbrev pub loading_cardinality_field : Text
loading_cardinality_field = codes "loading_cardinality"

abbrev pub reconcile_required_field : Text
reconcile_required_field = codes "reconcile_required"

abbrev pub loading_version_field : Text
loading_version_field = codes "loading_version"

abbrev pub loading_size_field : Text
loading_size_field = codes "loading_size"

abbrev pub diff_partition_field : Text
diff_partition_field = codes "diff_partition"

abbrev pub removal_fanout_complete_field : Text
removal_fanout_complete_field = codes "removal_fanout_complete"

abbrev pub reverse_index_disabled_field : Text
reverse_index_disabled_field = codes "__reverse_index_disabled"

-- The pair that is pushed if the option is there.
abbrev optional_field : Text → Option Text → List (Text × Text)
optional_field name none = []
optional_field name (some v) = (name, v) ∷ []

abbrev flag : Bool → Option Text
flag true = some (codes "1")
flag false = none

unfoldable pub to_hash_fields : ListSyncState → List (Text × Text)
to_hash_fields s =
    ((version_field, s.version)
      ∷ (file_id_field, s.file_id)
      ∷ (url_field, s.url)
      ∷ (creation_time_field, to_string s.creation_time)
      ∷ (size_field, to_string s.size)
      ∷ [])
    ++ (optional_field reverse_index_disabled_field (flag s.reverse_index_disabled)
        ++ (optional_field cardinality_field (Option.map to_string s.cardinality)
            ++ (optional_field loading_cardinality_field
                  (Option.map to_string s.loading_cardinality)
                ++ (optional_field reconcile_required_field (flag s.reconcile_required)
                    ++ (optional_field loading_version_field s.loading_version
                        ++ (optional_field loading_size_field (Option.map to_string s.loading_size)
                            ++ optional_field diff_partition_field
                                (Option.map to_string s.diff_partition)))))))

abbrev pub Fields : Type 0
Fields = Map Text Text

-- `fields.get(name).cloned().unwrap_or_default()`, and the same through `parse().ok()`.
abbrev text_or_default : Text → Fields → Text
text_or_default name fields = unwrap_or (get name fields) []

abbrev parsed : (Text → Option ℕ) → Option Text → Option ℕ
parsed parse none = none
parsed parse (some v) = parse v

unfoldable pub from_hash_fields : Fields → ListSyncState
from_hash_fields fields = record {
  reverse_index_disabled = contains_key reverse_index_disabled_field fields;
  version = text_or_default version_field fields;
  file_id = text_or_default file_id_field fields;
  url = text_or_default url_field fields;
  creation_time = unwrap_or (parsed parse_u64 (get creation_time_field fields)) 0;
  size = unwrap_or (parsed parse_u64 (get size_field fields)) 0;
  cardinality = parsed parse_u64 (get cardinality_field fields);
  loading_cardinality = parsed parse_u64 (get loading_cardinality_field fields);
  reconcile_required = contains_key reconcile_required_field fields;
  loading_version = get loading_version_field fields;
  loading_size = parsed parse_u64 (get loading_size_field fields);
  diff_partition = parsed parse_u32 (get diff_partition_field fields);
}

-- `HSET key field value ...` on the hash that is there.
unfoldable pub hset : List (Text × Text) → Fields → Fields
hset [] m = m
hset ((k, v) ∷ rest) m = hset rest (insert k v m)

-- What the pairs leave of a field that had the value `d`.
abbrev pub last_of : Text → List (Text × Text) → Option Text → Option Text
last_of k [] d = d
last_of k ((j, v) ∷ rest) d = last_of k rest (if text_beq j k then some v else d)

pub get-hset :
    (k : Text) (pairs : List (Text × Text)) (m : Fields)
    → get k (hset pairs m) ≡ last_of k pairs (get k m)
unfolding hset
get-hset k [] m = refl
get-hset k ((j, v) ∷ rest) m =
    get-hset k rest (insert j v m) ∙ ap (last_of k rest) (get-insert k j v m)

last_of-append :
    (k : Text) (xs ys : List (Text × Text)) (d : Option Text)
    → last_of k (xs ++ ys) d ≡ last_of k ys (last_of k xs d)
last_of-append k [] ys d = refl
last_of-append k ((j, v) ∷ xs) ys d = last_of-append k xs ys (if text_beq j k then some v else d)

-- A field with a pair of its own has its value, any other keeps what it had.
abbrev pick : Bool → Option Text → Option Text → Option Text
pick false o d = d
pick true none d = d
pick true (some v) d = some v

last_of-optional_field :
    (k name : Text) (o d : Option Text)
    → last_of k (optional_field name o) d ≡ pick (text_beq name k) o d
last_of-optional_field k name none d = ground arith
last_of-optional_field k name (some v) d = ground arith

-- The numbers fit the types of the fields.
pub record InRange (s : ListSyncState) : Type 0 where
  pub creation_time : s.creation_time ≤ u64_max
  pub size : s.size ≤ u64_max
  pub cardinality : unwrap_or s.cardinality 0 ≤ u64_max
  pub loading_cardinality : unwrap_or s.loading_cardinality 0 ≤ u64_max
  pub loading_size : unwrap_or s.loading_size 0 ≤ u64_max
  pub diff_partition : unwrap_or s.diff_partition 0 ≤ u32_max

abbrev required_fields : ListSyncState → List (Text × Text)
required_fields s =
    (version_field, s.version)
    ∷ (file_id_field, s.file_id)
    ∷ (url_field, s.url)
    ∷ (creation_time_field, to_string s.creation_time)
    ∷ (size_field, to_string s.size)
    ∷ []

abbrev field_value : Text → ListSyncState → Option Text
field_value k s = pick (text_beq diff_partition_field k) (Option.map to_string s.diff_partition) (
    pick (text_beq loading_size_field k) (Option.map to_string s.loading_size) (
      pick (text_beq loading_version_field k) s.loading_version (
        pick (text_beq reconcile_required_field k) (flag s.reconcile_required) (
          pick (text_beq loading_cardinality_field k) (Option.map to_string s.loading_cardinality) (
            pick (text_beq cardinality_field k) (Option.map to_string s.cardinality) (
              pick (text_beq reverse_index_disabled_field k) (flag s.reverse_index_disabled)
                (last_of k (required_fields s) none)))))))

get-to_hash_fields :
    (k : Text) (s : ListSyncState) → get k (hset (to_hash_fields s) []) ≡ field_value k s
unfolding to_hash_fields get
get-to_hash_fields k s =
    get-hset k (to_hash_fields s) [] ∙ simp (last_of-append, last_of-optional_field)

-- Reading an optional number that was printed.
parsed-pick :
    (parse : Text → Option ℕ) (o : Option ℕ) (limit : ℕ)
    → ((n : ℕ) → n ≤ limit → parse (to_string n) ≡ some n)
    → unwrap_or o 0 ≤ limit
    → parsed parse (pick true (Option.map to_string o) none) ≡ o
parsed-pick parse none limit h r = refl
parsed-pick parse (some n) limit h r = h n r

pick-none : (o : Option Text) → pick true o none ≡ o
pick-none none = refl
pick-none (some v) = refl

is_some-flag : (b : Bool) → is_some (pick true (flag b) none) ≡ b
is_some-flag true = refl
is_some-flag false = refl

-- A sync state whose numbers are in the ranges of their types is read back from the hash that
-- writing its fields to a missing hash gives.
pub from_hash_fields-to_hash_fields :
    (s : ListSyncState) → InRange s → from_hash_fields (hset (to_hash_fields s) []) ≡ s
unfolding from_hash_fields
from_hash_fields-to_hash_fields s r = ground (
  arith,
  ap is_some (get-to_hash_fields reverse_index_disabled_field s)
      ∙ is_some-flag s.reverse_index_disabled,
  ap is_some (get-to_hash_fields reconcile_required_field s) ∙ is_some-flag s.reconcile_required,
  get-to_hash_fields version_field s,
  get-to_hash_fields file_id_field s,
  get-to_hash_fields url_field s,
  ap (parsed parse_u64) (get-to_hash_fields creation_time_field s)
      ∙ parse_u64-to_string s.creation_time r.creation_time,
  ap (parsed parse_u64) (get-to_hash_fields size_field s) ∙ parse_u64-to_string s.size r.size,
  get-to_hash_fields loading_version_field s ∙ pick-none s.loading_version,
  ap (parsed parse_u64) (get-to_hash_fields cardinality_field s)
      ∙ parsed-pick parse_u64 s.cardinality u64_max parse_u64-to_string r.cardinality,
  ap (parsed parse_u64) (get-to_hash_fields loading_cardinality_field s)
      ∙ parsed-pick parse_u64 s.loading_cardinality u64_max parse_u64-to_string
          r.loading_cardinality,
  ap (parsed parse_u64) (get-to_hash_fields loading_size_field s)
      ∙ parsed-pick parse_u64 s.loading_size u64_max parse_u64-to_string r.loading_size,
  ap (parsed parse_u32) (get-to_hash_fields diff_partition_field s)
      ∙ parsed-pick parse_u32 s.diff_partition u32_max parse_u32-to_string r.diff_partition,
)
