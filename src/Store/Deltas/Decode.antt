-- ===== src/Store/Deltas/Decode.antt =====
-- The decoding loop always ends within its fuel.
use mathlib.Core.Logic.{inl, inr}
use statsig_forward_proxy.Prelude.{
  ℕ, zero, suc, ◌≡◌, ◌≢◌, ◌≤◌, ◌<◌, some, List, [], ◌∷◌, ◌++◌, arith, ◌==◌, length, Option-cases,
  Bool-cases,
}
use statsig_forward_proxy.Store.{Bytes}
use statsig_forward_proxy.Store.Deltas.Codec.{
  Codec, out_of_fuel, on_error, decode_loop, decode_envelopes,
}

module _ (c : Codec)
    (shrinks : (b : Bytes) (e : c.SpecsEnvelope) (r : Bytes)
      → c.decode_length_delimited b ≡ some (e, r)
      → length r ≤ length b) where
  on_error-ne-out_of_fuel :
      (payload : Bytes) (es : List c.SpecsEnvelope) → on_error c payload es ≢ out_of_fuel
  unfolding on_error
  on_error-ne-out_of_fuel payload [] = elim (Option-cases (c.decode_envelope payload)) [
    | inl e ↦ rw (e, on_error) (λ h. cc)
    | inr (v, e) ↦ rw (e, on_error) (λ h. cc)
  ]
  on_error-ne-out_of_fuel payload (e ∷ es) = λ h. cc

  decode_loop-ne-out_of_fuel :
      (fuel : ℕ) (payload : Bytes) (es : List c.SpecsEnvelope) (cursor : Bytes)
      → length cursor < fuel
      → decode_loop c fuel payload es cursor ≢ out_of_fuel
  unfolding decode_loop
  decode_loop-ne-out_of_fuel zero payload es cursor h = elim h [ ]
  decode_loop-ne-out_of_fuel (suc fuel) payload es [] h = λ e. cc
  decode_loop-ne-out_of_fuel (suc fuel) payload es (b ∷ bs) h =
      elim (Option-cases (c.decode_length_delimited (b ∷ bs))) [
        | inl failed ↦ rw failed (on_error-ne-out_of_fuel payload es)
        | inr ((e, rest), ok) ↦ elim (Bool-cases (length rest == length (b ∷ bs))) [
          | inl same ↦ rw (ok, same) (λ q. cc)
          | inr less ↦
              rw (ok, less)
                (decode_loop-ne-out_of_fuel fuel payload (es ++ e ∷ []) rest
                  (ground (arith, shrinks (b ∷ bs) e rest ok)))
        ]
      ]

  -- The loop of `decode_envelopes` ends for every payload: one round for each byte is enough, if
  -- prost's decoder never leaves more of the buffer than it was given.
  pub decode_envelopes-ne-out_of_fuel : (payload : Bytes) → decode_envelopes c payload ≢ out_of_fuel
  unfolding decode_envelopes
  decode_envelopes-ne-out_of_fuel payload =
      decode_loop-ne-out_of_fuel (suc (length payload)) payload [] payload (omega arith)
