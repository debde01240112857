-- ===== src/IdList/Worker/Send.antt =====
-- How the methods of the worker ask Redis and write to it, with the `?` that ends them where the
-- connection breaks.
use mathlib.Core.Logic.{inl, inr}
use statsig_forward_proxy.Prelude.{
  ℕ, zero, suc, ◌≡◌, refl, ap, true, none, some, List, [], ◌∷◌, ◌++◌, ◌⊎◌, All, Option-cases,
  Bool-cases, if◌then◌else◌, ◌==◌,
}
use statsig_forward_proxy.IdList.Worker.Redis.{Command, Redis, query}
use statsig_forward_proxy.IdList.Worker.Step.{redis_error, Step, Outcome}

abbrev pub first : {A : Type 0} → ℕ → List A → List A
first zero xs = []
first (suc n) [] = []
first (suc n) (x ∷ xs) = x ∷ first n xs

module _ (R : Redis) where
  -- A connection from the pool, or the answer to a read.
  unfoldable pub ask : Step R.State Unit
  ask s = if R.answers s then (inr tt, s) else (inl redis_error, s)

  -- A pipeline: where it breaks, a prefix of the commands has run.
  unfoldable pub send : List Command → Step R.State Unit
  unfolding query
  send cs s = elim (R.cut s cs) [
    | none ↦ (inr tt, query R s cs)
    | some n ↦ (inl redis_error, query R s (first n cs))
  ]

  -- An atomic pipeline: where it breaks, all of the commands have run or none.
  unfoldable pub send_atomic : List Command → Step R.State Unit
  unfolding query
  send_atomic cs s = elim (R.cut s cs) [
    | none ↦ (inr tt, query R s cs)
    | some n ↦ (inl redis_error, if n == 0 then s else query R s cs)
  ]

  pub ask-Outcome : (s : R.State) → Outcome (λ e t. t ≡ s) (λ u t. t ≡ s) (ask s)
  unfolding ask
  ask-Outcome s = elim (Bool-cases (R.answers s)) [
    | inl e ↦ rw (ask, e) refl
    | inr e ↦ rw (ask, e) refl
  ]

  pub send-Outcome :
      (cs : List Command) (s : R.State)
      → Outcome
          (λ e t. (n : ℕ) × (t ≡ query R s (first n cs)))
          (λ u t. t ≡ query R s cs)
          (send cs s)
  unfolding send
  send-Outcome cs s = elim (Option-cases (R.cut s cs)) [
    | inl e ↦ rw (send, e) refl
    | inr (n, e) ↦ rw (send, e) (n, refl)
  ]

  pub send_atomic-Outcome :
      (cs : List Command) (s : R.State)
      → Outcome (λ e t. (t ≡ s) ⊎ (t ≡ query R s cs)) (λ u t. t ≡ query R s cs) (send_atomic cs s)
  unfolding send_atomic
  send_atomic-Outcome cs s = elim (Option-cases (R.cut s cs)) [
    | inl e ↦ rw (send_atomic, e) refl
    | inr (n, e) ↦ elim (Bool-cases (n == 0)) [
      | inl z ↦ rw (send_atomic, e, z) (inl refl)
      | inr z ↦ rw (send_atomic, e, z) (inr refl)
    ]
  ]

  -- Nothing goes wrong.
  pub record IsReliable : Type 0 where
    pub answered : (s : R.State) → R.answers s ≡ true
    pub uncut : (s : R.State) (cs : List Command) → R.cut s cs ≡ none

pub All-first : {A : Type 0} (P : A → Type 0) (n : ℕ) (xs : List A) → All P xs → All P (first n xs)
All-first P zero xs h = tt
All-first P (suc n) [] h = tt
All-first P (suc n) (x ∷ xs) h = (h.0, All-first P n xs h.1)

-- A prefix of a list with a last element: one without that element, or the whole list.
pub first-snoc :
    {A : Type 0} (n : ℕ) (xs : List A) (x : A)
    → (first n (xs ++ (x ∷ [])) ≡ first n xs) ⊎ (first n (xs ++ (x ∷ [])) ≡ xs ++ (x ∷ []))
first-snoc zero xs x = inl refl
first-snoc (suc zero) [] x = inr refl
first-snoc (suc (suc n)) [] x = inr refl
first-snoc (suc n) (y ∷ ys) x = elim (first-snoc n ys x) [
  | inl h ↦ inl (ap (λ l. y ∷ l) h)
  | inr h ↦ inr (ap (λ l. y ∷ l) h)
]
