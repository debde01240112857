-- ===== src/Polling/Backoff/Controller.antt =====
-- `RequestBackoffController`. The key of a request is a parameter, with the equality of its type.
use statsig_forward_proxy.Prelude.{
  ◌⊎◌, ℕ, ◌+◌, ◌-◌, ◌≡◌, refl, min, Bool, true, false, Option, none, some, List, [], ◌∷◌, arith,
  ltb, leb, if◌then◌else◌, u32_max, Eq, Map, get, insert, remove, get-remove, get_congr, any,
}
use statsig_forward_proxy.Store.{
  DataProviderRequestResult, data_available, no_data_available, unauthorized, client_error, error,
}
use statsig_forward_proxy.Polling.Backoff.Delay.{RequestBackoffPolicy, delay_for_failure, scaled_or}

pub record RequestBackoffState : Type 0 where
  pub consecutive_failures : ℕ
  pub retry_after : ℕ
  pub last_seen : ℕ

abbrev pub StateByKey : Type 0 → Type 0
StateByKey K = Map K RequestBackoffState

-- The entry after a failure at `now`, `and_modify` and `or_insert_with`.
abbrev pub failed : RequestBackoffPolicy → ℕ → Option RequestBackoffState → RequestBackoffState
failed policy now none = record {
  consecutive_failures = 1;
  retry_after = now + delay_for_failure policy 1;
  last_seen = now;
}
failed policy now (some state) =
    let failures = min (state.consecutive_failures + 1) u32_max in
    record {
      consecutive_failures = failures;
      retry_after = now + delay_for_failure policy failures;
      last_seen = now;
    }

unfoldable pub stale_after : RequestBackoffPolicy → ℕ
unfolding scaled_or
stale_after policy = scaled_or policy.max_delay 2 policy.max_delay

-- `saturating_duration_since(last_seen).gt(&stale_after)`.
unfoldable pub is_stale : RequestBackoffPolicy → ℕ → Option RequestBackoffState → Bool
unfolding stale_after
is_stale policy now none = false
is_stale policy now (some state) = ltb (stale_after policy) (now - state.last_seen)

module _ {K : Type 0} ⦃eq_key : Eq K⦄ (policy : RequestBackoffPolicy) where
  unfoldable pub can_attempt_at : K → ℕ → StateByKey K → StateByKey K × Bool
  can_attempt_at key now states = elim (get key states) [
    | none ↦ (states, true)
    | some state ↦ (
      insert key
          (record {
            consecutive_failures = state.consecutive_failures;
            retry_after = state.retry_after;
            last_seen = now;
          })
          states,
      leb state.retry_after now,
    )
  ]

  abbrev pub record_success : K → StateByKey K → StateByKey K
  record_success key states = remove key states

  unfoldable pub record_failure_at : K → ℕ → StateByKey K → StateByKey K
  record_failure_at key now states = insert key (failed policy now (get key states)) states

  unfoldable pub record_result : K → DataProviderRequestResult → ℕ → StateByKey K → StateByKey K
  unfolding record_failure_at
  record_result key unauthorized now states = record_success key states
  record_result key error now states = record_failure_at key now states
  record_result key data_available now states = record_success key states
  record_result key no_data_available now states = record_success key states
  record_result key client_error now states = record_success key states

  -- The keys of the stale entries; an entry's value is what `get` reads at its key.
  unfoldable pub to_remove : ℕ → StateByKey K → StateByKey K → List K
  unfolding is_stale
  to_remove now states [] = []
  to_remove now states ((k, s) ∷ entries) =
      if is_stale policy now (get k states)
      then k ∷ to_remove now states entries
      else to_remove now states entries

  unfoldable pub remove_all : List K → StateByKey K → StateByKey K
  remove_all [] states = states
  remove_all (k ∷ ks) states = remove_all ks (remove k states)

  unfoldable pub prune_stale_at : ℕ → StateByKey K → StateByKey K
  unfolding to_remove remove_all
  prune_stale_at now states = remove_all (to_remove now states states) states

  get-remove_all :
      (ks : List K) (k : K) (states : StateByKey K)
      → get k (remove_all ks states) ≡ (if any (λ j. eq_key.beq j k) ks then none else get k states)
  unfolding remove_all
  get-remove_all [] k states = refl
  get-remove_all (j ∷ ks) k states =
      ground (arith, get-remove_all ks k (remove j states), get-remove k j states)

  -- Only stale entries are removed.
  to_remove-is_stale :
      (now : ℕ) (states entries : StateByKey K) (k : K)
      → any (λ j. eq_key.beq j k) (to_remove now states entries) ≡ true
      → is_stale policy now (get k states) ≡ true
  unfolding to_remove
  to_remove-is_stale now states [] k h = cc
  to_remove-is_stale now states ((j, s) ∷ entries) k h =
      ground (arith, to_remove-is_stale now states entries k, get_congr j k states)

  pub get-prune_stale_at :
      (now : ℕ) (k : K) (states : StateByKey K)
      → (get k (prune_stale_at now states) ≡ get k states)
        ⊎ (get k (prune_stale_at now states) ≡ none) × (is_stale policy now (get k states) ≡ true)
  unfolding prune_stale_at
  get-prune_stale_at now k states = ground (
    arith,
    get-remove_all (to_remove now states states) k states,
    to_remove-is_stale now states states k,
  )
