-- ===== src/Polling/Cadence.antt =====
-- `background_poll_dispatch.rs`: the spacing of the launches and the jittered interval of a cycle.
-- Durations are whole milliseconds here, as the code makes them.
use Prim.Native.Nat.{bit_xor}
use statsig_forward_proxy.Polling.Backoff.Delay.{power_of_two}
use statsig_forward_proxy.Prelude.{
  ℕ, ◌+◌, ◌-◌, ◌*◌, ◌/◌, ◌%◌, ◌≡◌, ◌≤◌, min, max, Bool, ◌||◌, arith, ltb, if◌then◌else◌, u64_max,
}

-- `max_in_flight` is a `usize` of 64 bits.
pub record BackgroundPollDispatchConfig : Type 0 where
  pub max_in_flight : ℕ
  pub item_spacing_ms : ℕ
  pub jitter_seed : ℕ

-- The seed is taken from a random source.
abbrev pub new : ℕ → ℕ → ℕ → BackgroundPollDispatchConfig
new seed max_in_flight item_spacing_ms = record {
  max_in_flight = max max_in_flight 1;
  item_spacing_ms = item_spacing_ms;
  jitter_seed = seed;
}

unfoldable pub background_dispatch_shaping_enabled : BackgroundPollDispatchConfig → ℕ → Bool
background_dispatch_shaping_enabled config prepared_request_count =
    ltb 0 config.item_spacing_ms || ltb config.max_in_flight prepared_request_count

-- `base_interval_ms` of the loop: at least 1, at most a `u64`.
abbrev pub base_interval_ms : ℕ → ℕ
base_interval_ms base_interval = min (max base_interval 1) u64_max

abbrev pub jitter_window_ms : ℕ → ℕ
jitter_window_ms base = max (base / 10) 1

-- `u64::rotate_left` by less than 64, and `cycle_jitter_mix`.
abbrev pub rotate_left : ℕ → ℕ → ℕ
rotate_left x n = x * power_of_two n % power_of_two 64 + x / power_of_two (64 - n)

unfoldable pub cycle_jitter_mix : ℕ → ℕ → ℕ
cycle_jitter_mix poll_cycle jitter_seed =
    let cycle_mix = poll_cycle * 0x9E37_79B9_7F4A_7C15 % power_of_two 64 in
    bit_xor (rotate_left jitter_seed (poll_cycle % 64)) cycle_mix

-- `DefaultHasher` is the parameter `key_hash`.
unfoldable pub dispatch_rank {ℓ} : {K : Type ℓ} → (K → ℕ) → K → ℕ → ℕ → ℕ
unfolding cycle_jitter_mix
dispatch_rank key_hash request_key poll_cycle jitter_seed =
    bit_xor (key_hash request_key) (cycle_jitter_mix poll_cycle jitter_seed)

-- `jitter_offset_ms` is the bucket less the window, in `i128`; `mix` is `cycle_jitter_mix` of the
-- cycle and the seed.
unfoldable pub jittered_interval_ms : ℕ → ℕ → ℕ
jittered_interval_ms base mix =
    let window = jitter_window_ms base in
    let bucket_count = min (min (window * 2) u64_max + 1) u64_max in
    let bucket = mix % bucket_count in
    if ltb bucket window
    then max (base - (window - bucket)) 1
    else min (base + (bucket - window)) u64_max

unfoldable pub poll_interval_for_cycle : BackgroundPollDispatchConfig → ℕ → ℕ → ℕ
unfolding jittered_interval_ms cycle_jitter_mix
poll_interval_for_cycle config base_interval poll_cycle =
    jittered_interval_ms (base_interval_ms base_interval)
      (cycle_jitter_mix poll_cycle config.jitter_seed)

within_window :
    (base mix : ℕ)
    → 1 ≤ base
    → base ≤ u64_max
    → (jittered_interval_ms base mix ≤ base + max (base / 10) 1)
      × (base ≤ jittered_interval_ms base mix + max (base / 10) 1)
      × (1 ≤ jittered_interval_ms base mix)
unfolding jittered_interval_ms
within_window base mix low high = ground arith

-- The interval of every cycle stays within a tenth of the configured one, for an interval of at
-- least 10 ms that fits in a `u64`, whatever the cycle and the seed.
pub poll_interval_for_cycle-near :
    (config : BackgroundPollDispatchConfig) (base_interval poll_cycle : ℕ)
    → 10 ≤ base_interval
    → base_interval ≤ u64_max
    → (10 * poll_interval_for_cycle config base_interval poll_cycle ≤ 11 * base_interval)
      × (9 * base_interval ≤ 10 * poll_interval_for_cycle config base_interval poll_cycle)
unfolding poll_interval_for_cycle
poll_interval_for_cycle-near config base_interval poll_cycle low high =
    let same : base_interval_ms base_interval ≡ base_interval = omega arith in
    let mix = cycle_jitter_mix poll_cycle config.jitter_seed in
    let (above, below, _) = within_window base_interval mix (omega arith) high in
    rw same (omega (arith, above), omega (arith, below))
