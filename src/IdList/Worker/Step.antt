-- ===== src/IdList/Worker/Step.antt =====
-- `WorkerError` of `worker/core.rs`, and the methods of the worker as functions on the state of
-- Redis: what is written before an error stays written.
use mathlib.Core.Logic.{inl, inr}
use statsig_forward_proxy.Prelude.{ℕ, Bool, ◌⊎◌, Text}
use statsig_forward_proxy.IdList.Parser.Decoder.{InvalidFile}

-- `InvalidFile` of the worker: a line, or a download that ends at an offset before the size of the
-- task, with a partial line or not.
pub data FileFault : Type 0 where
  invalid_line : InvalidFile → FileFault
  ended_early : ℕ → ℕ → Bool → FileFault

pub data WorkerError : Type 0 where
  redis_error : WorkerError
  http_error : WorkerError
  invalid_task : Text → WorkerError
  invalid_file : FileFault → WorkerError
  origin_status : ℕ → WorkerError
  range_ignored : WorkerError
  lock_lost : WorkerError
  scan_verification : Text → WorkerError
  missing_dictionary_token : WorkerError

abbrev pub Step : Type 0 → Type 0 → Type 0
Step S A = S → (WorkerError ⊎ A) × S

module _ {S A : Type 0} where
  abbrev pub done : A → Step S A
  done a s = (inr a, s)

  abbrev pub fail : WorkerError → Step S A
  fail e s = (inl e, s)

  -- What holds where a call ends: `E` after an error, `Q` of the result otherwise.
  abbrev pub Outcome :
      (WorkerError → S → Type 0) → (A → S → Type 0) → (WorkerError ⊎ A) × S → Type 0
  Outcome E Q (inl e, s) = E e s
  Outcome E Q (inr a, s) = Q a s

module _ {S A B : Type 0} where
  -- `?`: the rest of a method after a call, unless that failed.
  abbrev pub then_with : (WorkerError ⊎ A) × S → (A → Step S B) → (WorkerError ⊎ B) × S
  then_with (inl e, s) next = (inl e, s)
  then_with (inr a, s) next = next a s

  infixl 10 ◌>>=◌
  abbrev pub ◌>>=◌ : Step S A → (A → Step S B) → Step S B
  ◌>>=◌ m next s = then_with (m s) next

  pub then_with-Outcome :
      (E : WorkerError → S → Type 0) (Q : A → S → Type 0) (Q' : B → S → Type 0)
      (r : (WorkerError ⊎ A) × S) (next : A → Step S B)
      → Outcome E Q r
      → ((a : A) (t : S) → Q a t → Outcome E Q' (next a t))
      → Outcome E Q' (then_with r next)
  then_with-Outcome E Q Q' (inl e, s) next h rest = h
  then_with-Outcome E Q Q' (inr a, s) next h rest = rest a s h

module _ {S A : Type 0} where
  pub Outcome-weaken :
      (E E' : WorkerError → S → Type 0) (Q Q' : A → S → Type 0) (r : (WorkerError ⊎ A) × S)
      → ((e : WorkerError) (s : S) → E e s → E' e s)
      → ((a : A) (s : S) → Q a s → Q' a s)
      → Outcome E Q r
      → Outcome E' Q' r
  Outcome-weaken E E' Q Q' (inl e, s) f g h = f e s h
  Outcome-weaken E E' Q Q' (inr a, s) f g h = g a s h

  -- A call that does not fail.
  pub Outcome-returns :
      (E : WorkerError → S → Type 0) (Q : A → S → Type 0) (r : (WorkerError ⊎ A) × S)
      → Outcome E Q r
      → Outcome (λ e t. ⊥) (λ a t. Unit {0}) r
      → Outcome (λ e t. ⊥) Q r
  Outcome-returns E Q (inl e, s) h never = never
  Outcome-returns E Q (inr a, s) h never = h
