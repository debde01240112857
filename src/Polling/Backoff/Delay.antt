-- ===== src/Polling/Backoff/Delay.antt =====
-- `RequestBackoffPolicy`: how long to wait after a number of failures.
use statsig_forward_proxy.Prelude.{
  ℕ, zero, suc, ◌-◌, ◌*◌, ◌/◌, ◌≡◌, ◌≤◌, ◌∙◌, ap, min, max, arith, leb, leb→le, not-leb→lt,
  Bool-cases, if◌then◌else◌, u64_max, u32_max,
}
use mathlib.Core.Logic.{inl, inr}

abbrev pub nanos_per_sec : ℕ
nanos_per_sec = 1000000000

abbrev pub from_secs : ℕ → ℕ
from_secs s = s * nanos_per_sec

abbrev pub power_of_two : ℕ → ℕ
power_of_two zero = 1
power_of_two (suc n) = 2 * power_of_two n

pub record RequestBackoffPolicy : Type 0 where
  pub initial_delay : ℕ
  pub max_delay : ℕ

unfoldable pub from_polling_interval : ℕ → RequestBackoffPolicy
from_polling_interval polling_interval_in_s =
    let base_secs = max polling_interval_in_s 1 in
    record {
      initial_delay = from_secs base_secs;
      max_delay = from_secs (min (min (base_secs * 32) u64_max) 300);
    }

-- `Duration::checked_mul` fails if the seconds leave `u64`; then the fallback is taken.
unfoldable pub scaled_or : ℕ → ℕ → ℕ → ℕ
scaled_or duration factor fallback =
    if leb (duration * factor / nanos_per_sec) u64_max then duration * factor else fallback

unfoldable pub delay_for_failure : RequestBackoffPolicy → ℕ → ℕ
unfolding scaled_or
delay_for_failure policy failure_count =
    let exponent = min (failure_count - 1) 31 in
    let factor = min (power_of_two exponent) u32_max in
    min (scaled_or policy.initial_delay factor policy.max_delay) policy.max_delay

power_positive : (n : ℕ) → 1 ≤ power_of_two n
power_positive zero = omega arith
power_positive (suc n) = omega (arith, power_positive n)

power_large : (n : ℕ) → 31 ≤ n → 0x8000_0000 ≤ power_of_two n
power_large zero h = omega (arith, h)
power_large (suc n) h = elim (Bool-cases (leb 31 n)) [
  | inl e ↦ omega (arith, power_large n (leb→le 31 n e))
  | inr e ↦
      let last : n ≡ 30 = omega (arith, h, not-leb→lt 31 n e) in omega (arith, ap power_of_two last)
]

scaled_or-min :
    (duration factor most : ℕ)
    → most ≤ from_secs 300
    → min (scaled_or duration factor most) most ≡ min (duration * factor) most
unfolding scaled_or
scaled_or-min duration factor most h = ground arith

both_capped : (d x y most : ℕ) → most ≤ d * x → most ≤ d * y → min (d * x) most ≡ min (d * y) most
both_capped d x y most h k = omega (arith, h, k)

grows : (d p : ℕ) → 0x8000_0000 ≤ p → d * 32 ≤ d * p
grows d p h = grind arith

reaches : (base p : ℕ) → 0x8000_0000 ≤ p → from_secs (min (base * 32) 300) ≤ from_secs base * p
reaches base p h = omega (arith, grows (base * nanos_per_sec) p h)

-- From the 32nd failure on, the exponent stays and the delay is at its most.
capped :
    (base n : ℕ)
    → 1 ≤ base
    → min (from_secs base * power_of_two (min n 31)) (from_secs (min (base * 32) 300))
      ≡ min (from_secs base * power_of_two n) (from_secs (min (base * 32) 300))
capped base n h = elim (Bool-cases (leb n 31)) [
  | inl e ↦
      ap (λ k. min (from_secs base * power_of_two k) (from_secs (min (base * 32) 300)))
        (omega (arith, leb→le n 31 e))
  | inr e ↦
      let last : min n 31 ≡ 31 = omega (arith, not-leb→lt n 31 e) in
      rw last (
        both_capped (from_secs base) (power_of_two 31) (power_of_two n)
          (from_secs (min (base * 32) 300)) (reaches base (power_of_two 31) (omega arith))
          (reaches base (power_of_two n) (power_large n (omega (arith, not-leb→lt n 31 e)))))
]

power_mono : (a b : ℕ) → a ≤ b → power_of_two a ≤ power_of_two b
power_mono a zero h =
    let none_left : a ≡ 0 = omega (arith, h) in omega (arith, ap power_of_two none_left)
power_mono a (suc b) h = elim (Bool-cases (leb a b)) [
  | inl e ↦ omega (arith, power_mono a b (leb→le a b e))
  | inr e ↦
      let last : a ≡ suc b = omega (arith, h, not-leb→lt a b e) in
      omega (arith, ap power_of_two last)
]

saturated : (base : ℕ) → min (min (base * 32) u64_max) 300 ≡ min (base * 32) 300
saturated base = omega arith

factor_plain : (n : ℕ) → min (power_of_two (min (suc n - 1) 31)) u32_max ≡ power_of_two (min n 31)
factor_plain n =
    let before : suc n - 1 ≡ n = omega arith in
    ap (λ k. min (power_of_two (min k 31)) u32_max) before
    ∙ omega (arith, power_mono (min n 31) 31 (omega arith))

-- With the policy of a polling interval, the wait after a failure doubles from the interval (at
-- least one second) with each failure in a row, up to 32 intervals and at most five minutes; no
-- count of failures runs into an overflow or stops the growth before.
pub delay_for_failure-doubles :
    (interval n : ℕ)
    → delay_for_failure (from_polling_interval interval) (suc n)
      ≡ min
          (from_secs (max interval 1) * power_of_two n)
          (from_secs (min (max interval 1 * 32) 300))
unfolding delay_for_failure from_polling_interval
delay_for_failure-doubles interval n =
    let base = max interval 1 in
    ap
      (λ m.
        min
          (scaled_or (from_secs base) (min (power_of_two (min (suc n - 1) 31)) u32_max)
            (from_secs m))
          (from_secs m))
      (saturated base)
    ∙ (ap
          (λ f.
            min (scaled_or (from_secs base) f (from_secs (min (base * 32) 300)))
              (from_secs (min (base * 32) 300)))
          (factor_plain n)
        ∙ (scaled_or-min (from_secs base) (power_of_two (min n 31))
              (from_secs (min (base * 32) 300)) (omega arith)
            ∙ capped base n (omega arith)))
