-- ===== src/Polling/Backoff/History.antt =====
-- The controller over a history of attempts and results.
use mathlib.Core.Logic.{inl, inr}
use statsig_forward_proxy.Prelude.{
  ℕ, ◌+◌, ◌≡◌, ◌∙◌, refl, min, Bool, true, Option, none, some, List, [], ◌∷◌, arith, leb,
  if◌then◌else◌, u32_max, Eq, get, remove, get-insert, get-remove, get_congr, Option-cases,
}
use statsig_forward_proxy.Store.{
  DataProviderRequestResult, data_available, no_data_available, unauthorized, client_error, error,
}
use statsig_forward_proxy.Polling.Backoff.Delay.{RequestBackoffPolicy, delay_for_failure}
use statsig_forward_proxy.Polling.Backoff.Controller.{
  RequestBackoffState, StateByKey, can_attempt_at, record_result, record_failure_at, failed,
}

-- A call of the controller, with the instant it reads.
pub data Call (K : Type 0) : Type 0 where
  asked : K → ℕ → Call K
  finished : K → DataProviderRequestResult → ℕ → Call K

-- The failures in a row, after one more.
abbrev pub one_more : Option (ℕ × ℕ) → ℕ
one_more none = 1
one_more (some (n, t)) = min (n + 1) u32_max

abbrev pub standing_after : DataProviderRequestResult → ℕ → Option (ℕ × ℕ) → Option (ℕ × ℕ)
standing_after error now o = some (one_more o, now)
standing_after data_available now o = none
standing_after no_data_available now o = none
standing_after unauthorized now o = none
standing_after client_error now o = none

abbrev pub passes : Option RequestBackoffState → ℕ → Bool
passes none now = true
passes (some s) now = leb s.retry_after now

module _ (policy : RequestBackoffPolicy) where
  abbrev view : Option RequestBackoffState → Option (ℕ × ℕ)
  view none = none
  view (some s) = some (s.consecutive_failures, s.retry_after)

  abbrev due : Option (ℕ × ℕ) → Option (ℕ × ℕ)
  due none = none
  due (some (n, t)) = some (n, t + delay_for_failure policy n)

  abbrev pub allowed : Option (ℕ × ℕ) → ℕ → Bool
  allowed none now = true
  allowed (some (n, t)) now = leb (t + delay_for_failure policy n) now

  view-failed :
      (now : ℕ) (o : Option RequestBackoffState) (p : Option (ℕ × ℕ))
      → view o ≡ due p
      → view (some (failed policy now o)) ≡ due (some (one_more p, now))
  view-failed now none none h = refl
  view-failed now none (some p) h = cc
  view-failed now (some s) none h = cc
  view-failed now (some s) (some p) h = ground (arith, h)

  passes-allowed :
      (o : Option RequestBackoffState) (p : Option (ℕ × ℕ)) (now : ℕ)
      → view o ≡ due p
      → passes o now ≡ allowed p now
  passes-allowed none none now h = refl
  passes-allowed none (some p) now h = cc
  passes-allowed (some s) none now h = cc
  passes-allowed (some s) (some p) now h = ground (arith, h)

module _ {K : Type 0} ⦃eq_key : Eq K⦄ where
  -- What a history, the latest call first, says of a key: none if its last result was no error or
  -- there is none, else the errors since then and the instant of the last.
  abbrev pub standing : K → List (Call K) → Option (ℕ × ℕ)
  standing k [] = none
  standing k (asked j now ∷ calls) = standing k calls
  standing k (finished j result now ∷ calls) =
      if eq_key.beq j k then standing_after result now (standing k calls) else standing k calls

  module _ (policy : RequestBackoffPolicy) where
    -- The state of the controller after a history.
    unfoldable pub replay : List (Call K) → StateByKey K
    unfolding can_attempt_at record_result
    replay [] = []
    replay (asked j now ∷ calls) = (can_attempt_at policy j now (replay calls)).0
    replay (finished j result now ∷ calls) = record_result policy j result now (replay calls)

    view-can_attempt_at :
        (j k : K) (now : ℕ) (m : StateByKey K)
        → view policy (get k ((can_attempt_at policy j now m).0)) ≡ view policy (get k m)
    unfolding can_attempt_at
    view-can_attempt_at j k now m = elim (Option-cases (get j m)) [
      | inl e ↦ rw (can_attempt_at, e) refl
      | inr (s, e) ↦
          rw (can_attempt_at, e)
            (ground (
              arith,
              e,
              get_congr j k m,
              get-insert k j
                  (record {
                    consecutive_failures = s.consecutive_failures;
                    retry_after = s.retry_after;
                    last_seen = now;
                  })
                  m,
            ))
    ]

    view-record_failure_at :
        (j k : K) (now : ℕ) (m : StateByKey K) (calls : List (Call K))
        → ((i : K) → view policy (get i m) ≡ due policy (standing i calls))
        → view policy (get k (record_failure_at policy j now m))
          ≡ due policy (standing k (finished j error now ∷ calls))
    unfolding record_failure_at
    view-record_failure_at j k now m calls h = ground (
      arith,
      get-insert k j (failed policy now (get j m)) m,
      get_congr j k m,
      view-failed policy now (get k m) (standing k calls),
      h k,
    )

    view-record_success :
        (j k : K) (m : StateByKey K) (o : Option (ℕ × ℕ))
        → view policy (get k m) ≡ due policy o
        → view policy (get k (remove j m)) ≡ due policy (if eq_key.beq j k then none else o)
    view-record_success j k m o h = ground (arith, get-remove k j m, h)

    view-replay :
        (calls : List (Call K)) (k : K)
        → view policy (get k (replay calls)) ≡ due policy (standing k calls)
    unfolding replay record_result get
    view-replay [] k = refl
    view-replay (asked j now ∷ calls) k =
        view-can_attempt_at j k now (replay calls) ∙ view-replay calls k
    view-replay (finished j error now ∷ calls) k =
        view-record_failure_at j k now (replay calls) calls (view-replay calls)
    view-replay (finished j data_available now ∷ calls) k =
        view-record_success j k (replay calls) (standing k calls) (view-replay calls k)
    view-replay (finished j no_data_available now ∷ calls) k =
        view-record_success j k (replay calls) (standing k calls) (view-replay calls k)
    view-replay (finished j unauthorized now ∷ calls) k =
        view-record_success j k (replay calls) (standing k calls) (view-replay calls k)
    view-replay (finished j client_error now ∷ calls) k =
        view-record_success j k (replay calls) (standing k calls) (view-replay calls k)

    pub asks-passes :
        (k : K) (now : ℕ) (m : StateByKey K)
        → (can_attempt_at policy k now m).1 ≡ passes (get k m) now
    unfolding can_attempt_at
    asks-passes k now m = elim (Option-cases (get k m)) [
      | inl e ↦ rw (can_attempt_at, e) refl
      | inr (s, e) ↦ rw (can_attempt_at, e) refl
    ]

    -- After any history of attempts and results, a request may be sent exactly if its last result
    -- was no error or the delay for its errors in a row has passed since the last of them; what
    -- happens to other requests does not matter.
    pub can_attempt_at-standing :
        (calls : List (Call K)) (k : K) (now : ℕ)
        → (can_attempt_at policy k now (replay calls)).1 ≡ allowed policy (standing k calls) now
    can_attempt_at-standing calls k now =
        asks-passes k now (replay calls)
        ∙ passes-allowed policy (get k (replay calls)) (standing k calls) now (view-replay calls k)
