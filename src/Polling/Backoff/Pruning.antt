-- ===== src/Polling/Backoff/Pruning.antt =====
-- Pruning the entries of the controller that were not used for long.
use mathlib.Core.Logic.{inl, inr}
use statsig_forward_proxy.Prelude.{
  subst, ℕ, ◌+◌, ◌≡◌, ◌≤◌, ◌∙◌, refl, sym, ap, min, Bool, true, false, Option, none, some, List, [],
  ◌∷◌, arith, if◌then◌else◌, u32_max, Eq, get, insert, remove, get-insert, get-remove, Option-cases,
}
use statsig_forward_proxy.Store.{
  DataProviderRequestResult, data_available, no_data_available, unauthorized, client_error, error,
}
use statsig_forward_proxy.Polling.Backoff.Delay.{RequestBackoffPolicy, delay_for_failure, scaled_or}
use statsig_forward_proxy.Polling.Backoff.Controller.{
  RequestBackoffState, StateByKey, can_attempt_at, record_result, record_failure_at, prune_stale_at,
  is_stale, stale_after, failed, get-prune_stale_at,
}
use statsig_forward_proxy.Polling.Backoff.History.{
  Call, asked, finished, passes, replay, asks-passes,
}

passes_later :
    (o : Option RequestBackoffState) (now later : ℕ)
    → now ≤ later
    → passes o now ≡ true
    → passes o later ≡ true
passes_later none now later le h = refl
passes_later (some s) now later le h = ground (arith, le, h)

-- The instants of a history do not run backwards, and none is after `last`.
abbrev pub InOrder : {K : Type 0} → ℕ → List (Call K) → Type 0
InOrder last [] = Unit
InOrder last (asked j now ∷ calls) = (now ≤ last) × InOrder now calls
InOrder last (finished j result now ∷ calls) = (now ≤ last) × InOrder now calls

module _ (policy : RequestBackoffPolicy) where
  -- An entry was seen when its wait began or later, and not after `last`.
  abbrev Paced : ℕ → Option RequestBackoffState → Type 0
  Paced last none = Unit
  Paced last (some s) = (s.retry_after ≤ s.last_seen + policy.max_delay) × (s.last_seen ≤ last)

  Paced-later :
      (last now : ℕ) (o : Option RequestBackoffState) → last ≤ now → Paced last o → Paced now o
  Paced-later last now none h p = tt
  Paced-later last now (some s) h p = (p.0, omega (arith, h, p.1))

  delay_le : (n : ℕ) → delay_for_failure policy n ≤ policy.max_delay
  unfolding delay_for_failure
  delay_le n = omega arith

  Paced-failed : (now : ℕ) (o : Option RequestBackoffState) → Paced now (some (failed policy now o))
  Paced-failed now none = (omega (arith, delay_le 1), omega arith)
  Paced-failed now (some s) =
      (omega (arith, delay_le (min (s.consecutive_failures + 1) u32_max)), omega arith)

  -- A stale entry is no longer in the way of its key.
  stale-passes :
      (last now : ℕ) (o : Option RequestBackoffState)
      → Paced last o
      → is_stale policy now o ≡ true
      → passes o now ≡ true
  unfolding is_stale stale_after scaled_or
  stale-passes last now none p h = refl
  stale-passes last now (some s) p h = ground (arith, p)

  either_Paced :
      (b : Bool) (last : ℕ) (x y : Option RequestBackoffState)
      → Paced last x
      → Paced last y
      → Paced last (if b then x else y)
  either_Paced true last x y hx hy = hx
  either_Paced false last x y hx hy = hy

module _ {K : Type 0} ⦃eq_key : Eq K⦄ where
  module _ (policy : RequestBackoffPolicy) where
    Paced-insert :
        (j k : K) (now : ℕ) (s : RequestBackoffState) (m : StateByKey K)
        → Paced policy now (some s)
        → Paced policy now (get k m)
        → Paced policy now (get k (insert j s m))
    Paced-insert j k now s m hs hm =
        subst (Paced policy now) (sym (get-insert k j s m))
          (either_Paced policy (eq_key.beq j k) now (some s) (get k m) hs hm)

    Paced-remove :
        (j k : K) (last now : ℕ) (m : StateByKey K)
        → last ≤ now
        → Paced policy last (get k m)
        → Paced policy now (get k (remove j m))
    Paced-remove j k last now m le h = subst (Paced policy now) (sym (get-remove k j m)) (
        either_Paced policy (eq_key.beq j k) now none (get k m) tt
          (Paced-later policy last now (get k m) le h))

    Paced-can_attempt_at :
        (j k : K) (last now : ℕ) (m : StateByKey K)
        → last ≤ now
        → ((i : K) → Paced policy last (get i m))
        → Paced policy now (get k ((can_attempt_at policy j now m).0))
    unfolding can_attempt_at
    Paced-can_attempt_at j k last now m le h = elim (Option-cases (get j m)) [
      | inl e ↦ rw (can_attempt_at, e) (Paced-later policy last now (get k m) le (h k))
      | inr (s, e) ↦
          let p : Paced policy last (some s) = subst (Paced policy last) e (h j) in
          rw (can_attempt_at, e)
            (Paced-insert j k now
              (record {
                consecutive_failures = s.consecutive_failures;
                retry_after = s.retry_after;
                last_seen = now;
              })
              m (omega (arith, le, p.0, p.1), omega arith)
              (Paced-later policy last now (get k m) le (h k)))
    ]

    Paced-record_result :
        (j k : K) (last now : ℕ) (result : DataProviderRequestResult) (m : StateByKey K)
        → last ≤ now
        → ((i : K) → Paced policy last (get i m))
        → Paced policy now (get k (record_result policy j result now m))
    unfolding record_result record_failure_at
    Paced-record_result j k last now error m le h =
        Paced-insert j k now (failed policy now (get j m)) m (Paced-failed policy now (get j m))
          (Paced-later policy last now (get k m) le (h k))
    Paced-record_result j k last now data_available m le h = Paced-remove j k last now m le (h k)
    Paced-record_result j k last now no_data_available m le h = Paced-remove j k last now m le (h k)
    Paced-record_result j k last now unauthorized m le h = Paced-remove j k last now m le (h k)
    Paced-record_result j k last now client_error m le h = Paced-remove j k last now m le (h k)

    Paced-replay :
        (last : ℕ) (calls : List (Call K)) (k : K)
        → InOrder last calls
        → Paced policy last (get k (replay policy calls))
    unfolding replay get
    Paced-replay last [] k h = tt
    Paced-replay last (asked j now ∷ calls) k h =
        Paced-later policy now last (get k (replay policy (asked j now ∷ calls))) h.0 (
          Paced-can_attempt_at j k now now (replay policy calls) (omega arith)
            (λ i. Paced-replay now calls i h.1))
    Paced-replay last (finished j result now ∷ calls) k h =
        Paced-later policy now last (get k (replay policy (finished j result now ∷ calls))) h.0 (
          Paced-record_result j k now now result (replay policy calls) (omega arith)
            (λ i. Paced-replay now calls i h.1))

    -- After a history of attempts and results, none of them a pruning, whose instants do not run
    -- backwards: the first call after one `prune_stale_at`, if it is of `can_attempt_at` and not
    -- earlier, gets the answer that it would get without the pruning.
    pub prune_stale_at-can_attempt_at :
        (calls : List (Call K)) (k : K) (now later : ℕ)
        → InOrder now calls
        → now ≤ later
        → (can_attempt_at policy k later (prune_stale_at policy now (replay policy calls))).1
          ≡ (can_attempt_at policy k later (replay policy calls)).1
    prune_stale_at-can_attempt_at calls k now later h le =
        let m = replay policy calls in
        asks-passes policy k later (prune_stale_at policy now m)
        ∙ (elim (get-prune_stale_at policy now k m) [
          | inl same ↦ ap (λ o. passes o later) same
          | inr (gone, stale) ↦
              ap (λ o. passes o later) gone
              ∙ sym (
                  passes_later (get k m) now later le
                    (stale-passes policy now now (get k m) (Paced-replay now calls k h) stale))
        ]
            ∙ sym (asks-passes policy k later m))
