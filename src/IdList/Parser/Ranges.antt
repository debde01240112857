-- ===== src/IdList/Parser/Ranges.antt =====
-- `content_range_starts_at` and `partition_for`.
use mathlib.Core.Option
use statsig_forward_proxy.Prelude.{
  ℕ, ◌+◌, ◌*◌, ◌%◌, max, ◌≡◌, ◌≤◌, refl, Bool, false, Option, none, some, [], ◌∷◌, ◌++◌, arith,
  Text, codes, ◌==◌, if◌then◌else◌, strip_prefix, to_string, to_string-digits, parse_u64,
  parse_u64-to_string, u64_max, All,
}
use statsig_forward_proxy.IdList.Parser.Decoder.{Bytes}

-- What stands before the first `-`, if there is one.
unfoldable pub before_dash : Text → Option Text
before_dash [] = none
before_dash (c ∷ s) =
    let rest = before_dash s in if c == b'-' then some [] else Option.map (λ t. c ∷ t) rest

range_start : Text → Option ℕ
unfolding before_dash
range_start range = elim (before_dash range) [ none ↦ none | some start ↦ parse_u64 start ]

abbrev pub starts_at : Option ℕ → ℕ → Bool
starts_at none n = false
starts_at (some m) n = m == n

unfoldable pub content_range_starts_at : Text → ℕ → Bool
unfolding range_start strip_prefix
content_range_starts_at value expected_start = elim (strip_prefix (codes "bytes ") value) [
  | none ↦ false
  | some range ↦ starts_at (range_start range) expected_start
]

before_dash-digits :
    (t rest : Text)
    → All (λ c. (b'0' ≤ c) × (c ≤ b'9')) t
    → before_dash (t ++ (b'-' ∷ rest)) ≡ some t
unfolding before_dash
before_dash-digits [] rest h = refl
before_dash-digits (c ∷ t) rest h = ground (arith, before_dash-digits t rest h.1, h.0.0)

-- A response whose `Content-Range` header begins at `n` is taken for a resume at `m` exactly if
-- `m` is `n`.
pub content_range_starts_at_iff :
    (n m : ℕ) (rest : Text)
    → n ≤ u64_max
    → content_range_starts_at (codes "bytes " ++ (to_string n ++ (codes "-" ++ rest))) m ≡ (n == m)
unfolding content_range_starts_at range_start strip_prefix
content_range_starts_at_iff n m rest h =
    rw
      (
        content_range_starts_at,
        range_start,
        before_dash-digits (to_string n) rest (to_string-digits n),
        parse_u64-to_string n h,
      )
      refl

abbrev be_bytes : ℕ → Bytes → ℕ
be_bytes acc [] = acc
be_bytes acc (b ∷ bs) = be_bytes (acc * 256 + b) bs

abbrev first_eight : Bytes → Bytes
first_eight (a ∷ b ∷ c ∷ d ∷ e ∷ f ∷ g ∷ h ∷ s) = a ∷ b ∷ c ∷ d ∷ e ∷ f ∷ g ∷ h ∷ []
first_eight s = s

-- `Sha256::digest` is the parameter; its result has 32 bytes, so the slice never fails.
unfoldable pub partition_for : (Bytes → Bytes) → Bytes → ℕ → ℕ
partition_for digest member partitions = be_bytes 0 (first_eight (digest member)) % max partitions 1
