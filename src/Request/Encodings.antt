-- ===== src/Request/Encodings.antt =====
-- The encodings under which responses are fetched and stored.
use mathlib.Core.Logic.{inl, inr}
use statsig_forward_proxy.Prelude.{
  ◌≡◌, ◌<◌, ◌≤◌, refl, ap, Bool, true, false, List, [], ◌∷◌, arith, if◌then◌else◌, retain, dedup,
  sort_by, All, Bool-cases,
}
use statsig_forward_proxy.Encoding.{
  CompressionEncoder, plain_text, gzip, statsig_brotli, encoding_eq, encoding_priority,
  priority_leb,
}
use statsig_forward_proxy.Encoding.Laws.{
  contains, Rising, dedup-sort_by-Rising, contains-dedup-sort_by, encoding_eq_sound,
}
use statsig_forward_proxy.Request.Context.{canonicalize_encodings, is_stored}

-- The only four canonical lists.
abbrev pub stored_encodings : Bool → Bool → List CompressionEncoder
stored_encodings true true = statsig_brotli ∷ gzip ∷ []
stored_encodings true false = statsig_brotli ∷ []
stored_encodings false true = gzip ∷ []
stored_encodings false false = []

absent_above :
    (e f : CompressionEncoder) (xs : List CompressionEncoder)
    → encoding_priority e ≤ encoding_priority f
    → All (λ y. encoding_priority f < encoding_priority y) xs
    → contains e xs ≡ false
absent_above e f [] p h = refl
absent_above e f (x ∷ xs) p h = elim (Bool-cases (encoding_eq e x)) [
  | inl same ↦ absurd (omega (arith, ap encoding_priority (encoding_eq_sound e x same), h.0))
  | inr other ↦ rw other (absent_above e f xs p h.1)
]

retain-Rising-stored :
    (xs : List CompressionEncoder)
    → Rising xs
    → retain is_stored xs ≡ stored_encodings (contains statsig_brotli xs) (contains gzip xs)
unfolding encoding_eq encoding_priority
retain-Rising-stored [] h = refl
retain-Rising-stored (x ∷ xs) h =
    ground
      (arith, retain-Rising-stored xs h.1, absent_above statsig_brotli x xs, absent_above gzip x xs)

-- What is stored for a request depends only on whether it accepts `statsig_brotli` and `gzip`: not
-- on their order, nor on repetitions, nor on other encodings. It is never empty.
pub canonicalize_encodings_lem :
    (encodings : List CompressionEncoder)
    → canonicalize_encodings encodings ≡ (
        if contains statsig_brotli encodings
        then (if contains gzip encodings then statsig_brotli ∷ gzip ∷ [] else statsig_brotli ∷ [])
        else if contains gzip encodings
        then gzip ∷ []
        else plain_text ∷ [])
unfolding canonicalize_encodings
canonicalize_encodings_lem encodings = ground (
  arith,
  retain-Rising-stored (dedup encoding_eq (sort_by priority_leb encodings))
      (dedup-sort_by-Rising encodings),
  contains-dedup-sort_by statsig_brotli encodings,
  contains-dedup-sort_by gzip encodings,
)

pub canonicalize_encodings_idem :
    (encodings : List CompressionEncoder)
    → canonicalize_encodings (canonicalize_encodings encodings) ≡ canonicalize_encodings encodings
unfolding encoding_eq
canonicalize_encodings_idem encodings = ground (
  arith,
  canonicalize_encodings_lem encodings,
  canonicalize_encodings_lem (canonicalize_encodings encodings),
)
