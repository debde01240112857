-- ===== src/IdList/Worker/Config.antt =====
-- `IdListWorkerConfig` of `worker/core.rs`, and `parse_reverse_index_enabled` of `mod.rs`: the limits
-- of the worker from the environment.
use mathlib.Core.Logic.{inl, inr}
use statsig_forward_proxy.Prelude.{
  ℕ, ◌*◌, ◌/◌, max, ◌≡◌, ◌≤◌, ◌<◌, refl, subst, Bool, true, false, ◌||◌, Option, none, some, ◌⊎◌,
  arith, Text, codes, text_beq, ltb, ◌==◌, parse_u64, if◌then◌else◌,
}

pub record WorkerConfig : Type 0 where
  pub enable_reverse_index : Bool
  pub poll_interval_ms : ℕ
  pub lock_ttl_s : ℕ
  pub pipeline_batch_size : ℕ
  pub scan_count : ℕ
  pub diff_partition_max_members : ℕ
  pub old_version_ttl_s : ℕ

abbrev pub default_worker_claim_ttl_s : ℕ
default_worker_claim_ttl_s = 60

abbrev pub default : WorkerConfig
default = record {
  enable_reverse_index = true;
  poll_interval_ms = 2_000;
  lock_ttl_s = default_worker_claim_ttl_s;
  pipeline_batch_size = 5_000;
  scan_count = 1_000;
  diff_partition_max_members = 2_000_000;
  old_version_ttl_s = 24 * 60 * 60;
}

-- `std::env::var`: a value, none, or one that is not Unicode.
pub data Var : Type 0 where
  present : Text → Var
  not_present : Var
  not_unicode : Var

-- The errors, by the variable that they name.
pub data ConfigError : Type 0 where
  unreadable : Text → ConfigError
  not_an_integer : Text → ConfigError
  not_a_boolean : Text → ConfigError
  not_positive : ConfigError

unfoldable pub try_with : {E A B : Type 0} → E ⊎ A → (A → E ⊎ B) → E ⊎ B
try_with (inl e) next = inl e
try_with (inr a) next = next a

abbrev pub ok_or : {E A : Type 0} → Option A → E → E ⊎ A
ok_or none e = inl e
ok_or (some a) e = inr a

abbrev reverse_index_env : Text
reverse_index_env = codes "IDLIST_ENABLE_REVERSE_INDEX"

unfoldable pub parse_reverse_index_enabled : Option Text → ConfigError ⊎ Bool
parse_reverse_index_enabled none = inr true
parse_reverse_index_enabled (some value) =
    if text_beq value (codes "true")
    then inr true
    else if text_beq value (codes "false")
    then inr false
    else inl (not_a_boolean reverse_index_env)

unfoldable pub reverse_index_enabled_from_env : (Text → Var) → ConfigError ⊎ Bool
unfolding parse_reverse_index_enabled
reverse_index_enabled_from_env env = elim (env reverse_index_env) [
  | present value ↦ parse_reverse_index_enabled (some value)
  | not_present ↦ inr true
  | not_unicode ↦ inl (unreadable reverse_index_env)
]

-- `env_usize` is the same where `usize` has 64 bits.
unfoldable pub env_u64 : (Text → Var) → Text → ℕ → ConfigError ⊎ ℕ
env_u64 env name default = elim (env name) [
  | present value ↦ ok_or (parse_u64 value) (not_an_integer name)
  | not_present ↦ inr default
  | not_unicode ↦ inl (unreadable name)
]

unfoldable pub validate : WorkerConfig → ConfigError ⊎ WorkerConfig
validate config =
    if (config.poll_interval_ms == 0)
      || (ltb config.lock_ttl_s 3
          || ((config.pipeline_batch_size == 0)
              || ((config.scan_count == 0) || (config.diff_partition_max_members == 0))))
    then inl not_positive
    else inr config

unfoldable pub from_env : (Text → Var) → ConfigError ⊎ WorkerConfig
unfolding reverse_index_enabled_from_env env_u64 validate
from_env env = try_with (reverse_index_enabled_from_env env) λ rev.
    try_with (env_u64 env (codes "IDLIST_QUEUE_POLL_INTERVAL_MS") default.poll_interval_ms) λ poll.
      try_with (env_u64 env (codes "IDLIST_LOCK_TTL_IN_S") default.lock_ttl_s) λ ttl.
        try_with (env_u64 env (codes "IDLIST_PIPELINE_BATCH_SIZE") default.pipeline_batch_size)
          λ batch. try_with (env_u64 env (codes "IDLIST_SCAN_COUNT") default.scan_count) λ scan.
            try_with
              (env_u64 env (codes "IDLIST_DIFF_PARTITION_MAX_MEMBERS")
                default.diff_partition_max_members)
              λ members.
                try_with
                  (env_u64 env (codes "IDLIST_OLD_VERSION_TTL_IN_S") default.old_version_ttl_s)
                  λ old. validate (record {
                    enable_reverse_index = rev;
                    poll_interval_ms = poll;
                    lock_ttl_s = ttl;
                    pipeline_batch_size = batch;
                    scan_count = scan;
                    diff_partition_max_members = members;
                    old_version_ttl_s = old;
                  })

-- The limits that the worker relies on. The claim is renewed at a third of its time to live, and at
-- least a second, so before it ends.
pub record IsValid (config : WorkerConfig) : Type 0 where
  pub poll_interval : 0 < config.poll_interval_ms
  pub batch : 0 < config.pipeline_batch_size
  pub scan : 0 < config.scan_count
  pub partition : 0 < config.diff_partition_max_members
  pub renewal : max (config.lock_ttl_s / 3) 1 < config.lock_ttl_s

validate-IsValid : (c config : WorkerConfig) → validate c ≡ inr config → IsValid config
unfolding validate
validate-IsValid c config h =
    go
      ((c.poll_interval_ms == 0)
        || (ltb c.lock_ttl_s 3
            || ((c.pipeline_batch_size == 0)
                || ((c.scan_count == 0) || (c.diff_partition_max_members == 0)))))
      refl h
  where
    go :
        (b : Bool)
        → (c.poll_interval_ms == 0)
            || (ltb c.lock_ttl_s 3
                || ((c.pipeline_batch_size == 0)
                    || ((c.scan_count == 0) || (c.diff_partition_max_members == 0))))
          ≡ b
        → (if b then inl not_positive else inr c) ≡ inr config
        → IsValid config
    go true e k = cc
    go false e k =
        let same : c ≡ config = cc in
        subst IsValid same (record {
          poll_interval = ground arith;
          batch = ground arith;
          scan = ground arith;
          partition = ground arith;
          renewal = let three : 3 ≤ c.lock_ttl_s = ground arith in omega arith;
        })

-- What holds of the value of a result, if it has one.
abbrev OnOk : {E A : Type 0} → (A → Type 0) → E ⊎ A → Type 0
OnOk P (inl e) = Unit
OnOk P (inr a) = P a

try_with-OnOk :
    {E A B : Type 0} (P : B → Type 0) (r : E ⊎ A) (next : A → E ⊎ B)
    → ((a : A) → OnOk P (next a))
    → OnOk P (try_with r next)
unfolding try_with
try_with-OnOk P (inl e) next h = tt
try_with-OnOk P (inr a) next h = h a

validate-OnOk : (c : WorkerConfig) → OnOk IsValid (validate c)
validate-OnOk c = go (validate c) refl
  where
    go : (r : ConfigError ⊎ WorkerConfig) → validate c ≡ r → OnOk IsValid r
    go (inl e) h = tt
    go (inr config) h = validate-IsValid c config h

from_env-OnOk : (env : Text → Var) → OnOk IsValid (from_env env)
unfolding from_env
from_env-OnOk env = try_with-OnOk IsValid _ _ λ rev. try_with-OnOk IsValid _ _ λ poll.
    try_with-OnOk IsValid _ _ λ ttl. try_with-OnOk IsValid _ _ λ batch.
      try_with-OnOk IsValid _ _ λ scan. try_with-OnOk IsValid _ _ λ members.
        try_with-OnOk IsValid _ _ λ old. validate-OnOk (record {
          enable_reverse_index = rev;
          poll_interval_ms = poll;
          lock_ttl_s = ttl;
          pipeline_batch_size = batch;
          scan_count = scan;
          diff_partition_max_members = members;
          old_version_ttl_s = old;
        })

-- A configuration that the environment gives without an error has positive limits, and the interval
-- at which the claim is renewed is shorter than the claim's time to live.
pub from_env-IsValid :
    (env : Text → Var) (config : WorkerConfig) → from_env env ≡ inr config → IsValid config
from_env-IsValid env config h = subst (OnOk IsValid) h (from_env-OnOk env)
