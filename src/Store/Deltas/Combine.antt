-- ===== src/Store/Deltas/Combine.antt =====
-- `build_combined_delta_proto_payload`.
use statsig_forward_proxy.Prelude.{
  ℕ, ◌≡◌, ◌≤◌, min, Bool, ◌||◌, none, some, List, [], ◌∷◌, arith, ◌==◌, ltb, leb, if◌then◌else◌,
  retain, is_empty, All,
}
use statsig_forward_proxy.Store.{Bytes}
use statsig_forward_proxy.Store.Deltas.Codec.{Codec}
use statsig_forward_proxy.Store.Deltas.Cache.{Entry, ByLcut}
use statsig_forward_proxy.Store.Deltas.Assemble.{
  last_or, assemble_envelopes_in_delta_order, encode_all, delta_order, assemble-delta_order,
}

pub data DeltaProtoBuildResult : Type 0 where
  sdk_key_not_registered no_cached_deltas : DeltaProtoBuildResult
  since_time_too_old : ℕ → DeltaProtoBuildResult
  no_updates : ℕ → DeltaProtoBuildResult
  combined : ℕ → Bytes → DeltaProtoBuildResult
  serialization_failed : DeltaProtoBuildResult

module _ (c : Codec) where
  abbrev pub earliest_from : ℕ → List (Entry c) → ℕ
  earliest_from t [] = t
  earliest_from t (x ∷ xs) = earliest_from (min t x.since_time_requested) xs

  -- The body of `build_combined_delta_proto_payload` once the key is known and has deltas.
  unfoldable pub combine : Entry c → List (Entry c) → ℕ → DeltaProtoBuildResult
  unfolding assemble_envelopes_in_delta_order
  combine d ds since_time =
      let earliest_requested_time = earliest_from d.since_time_requested ds in
      let latest_lcut = (last_or c d ds).lcut in
      let selected_deltas = retain (λ x. leb since_time x.lcut) (d ∷ ds) in
      if ltb since_time earliest_requested_time
      then since_time_too_old earliest_requested_time
      else if is_empty selected_deltas || since_time == latest_lcut
      then no_updates latest_lcut
      else elim (assemble_envelopes_in_delta_order c selected_deltas) [
        | some payload ↦ combined latest_lcut payload
        | none ↦ serialization_failed
      ]

  unfoldable pub build_combined_delta_proto_payload :
      Bool → List (Entry c) → ℕ → DeltaProtoBuildResult
  unfolding combine
  build_combined_delta_proto_payload registered [] since_time =
      if registered then no_cached_deltas else sdk_key_not_registered
  build_combined_delta_proto_payload registered (d ∷ ds) since_time =
      if registered then combine d ds since_time else sdk_key_not_registered

  le_last :
      (n : ℕ) (d : Entry c) (ds : List (Entry c))
      → n ≤ d.lcut
      → All (λ y. n ≤ y.lcut) ds
      → n ≤ (last_or c d ds).lcut
  le_last n d [] p h = p
  le_last n d (x ∷ xs) p h = le_last n x xs h.0 h.1

  is_empty-retain :
      (since_time : ℕ) (d : Entry c) (ds : List (Entry c))
      → ByLcut c (d ∷ ds)
      → is_empty (retain (λ x. leb since_time x.lcut) (d ∷ ds))
        ≡ ltb (last_or c d ds).lcut since_time
  is_empty-retain since_time d [] h = ground arith
  is_empty-retain since_time d (x ∷ xs) h =
      ground (arith, is_empty-retain since_time x xs h.1, le_last d.lcut x xs h.0.0 h.0.1)

  -- What a client at `since_time` is sent of the cached deltas of a key: nothing that it may rely on
  -- if it is behind the earliest of them; no update if it has the newest; and else the newest lcut
  -- with all the deltas whose lcut is at least `since_time`, in their order.
  pub combine_lem :
      (d : Entry c) (ds : List (Entry c)) (since_time : ℕ)
      → ByLcut c (d ∷ ds)
      → combine d ds since_time ≡ (
          if ltb since_time (earliest_from d.since_time_requested ds)
          then since_time_too_old (earliest_from d.since_time_requested ds)
          else if leb (last_or c d ds).lcut since_time
          then no_updates (last_or c d ds).lcut
          else elim (encode_all c (delta_order c (retain (λ x. leb since_time x.lcut) (d ∷ ds)))) [
            | some payload ↦ combined (last_or c d ds).lcut payload
            | none ↦ serialization_failed
          ])
  unfolding combine
  combine_lem d ds since_time h =
      rw (assemble-delta_order c (retain (λ x. leb since_time x.lcut) (d ∷ ds)))
        (ground (arith, is_empty-retain since_time d ds h))
