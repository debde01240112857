-- ===== src/IdList/Worker/Diff/Applied.antt =====
-- `apply_streamed_diff` takes the reverse index from the old version of a list to the new one.
use mathlib.Core.Logic.{inl, inr}
use statsig_forward_proxy.Prelude.{
  ℕ, ◌+◌, ◌-◌, ◌/◌, max, ◌≡◌, ◌≤◌, ◌<◌, ◌∙◌, refl, sym, Bool, false, some, ◌⊎◌, arith, Text, ltb,
  not-ltb→le, ◌%◌, ◌==◌, Bool-cases, if◌then◌else◌,
}
use statsig_forward_proxy.IdList.Parser.Decoder.{Bytes}
use statsig_forward_proxy.IdList.Parser.Ranges.{partition_for}
use statsig_forward_proxy.IdList.Worker.Apply.Index.{Mirrors}
use statsig_forward_proxy.IdList.Schema.Keys.{fwd_key}
use statsig_forward_proxy.IdList.Worker.Redis.{Redis, IsRedis}
use statsig_forward_proxy.IdList.Worker.Config.{WorkerConfig}
use statsig_forward_proxy.IdList.Worker.Step.{WorkerError, Outcome, then_with, then_with-Outcome}
use statsig_forward_proxy.IdList.Worker.Diff.{
  diff_partitions, recount, partition_count, apply_streamed_diff, check_total,
}
use statsig_forward_proxy.IdList.Worker.Diff.Scanned.{Agree}
use statsig_forward_proxy.IdList.Worker.Diff.Converged.{
  Upto, Upto-Agree, diff_partitions-Outcome, recount-Outcome,
}

all_done : (p k m : ℕ) (n o : Bool) → k ≤ m → p < m → (if ltb p (k + (m - k)) then n else o) ≡ n
all_done p k m n o h i = ground arith

count_positive : (m n : ℕ) → 0 < m → 0 < n → 0 < (n + (m - 1)) / m
count_positive m n h k = ground arith

at_least_one : (a b : ℕ) → 0 < max (max a b) 1
at_least_one a b = ground arith

some_partition : (x n : ℕ) → 0 < n → x % max n 1 < n
some_partition x n h = ground arith

partition_for-bound :
    (digest : Bytes → Bytes) (x : Text) (n : ℕ) → 0 < n → partition_for digest x n < n
unfolding partition_for
partition_for-bound digest x n h = some_partition _ n h

module _ (R : Redis) (L : IsRedis R) (key_prefix skh : Text) (config : WorkerConfig) (token : ℕ)
    (digest : Bytes → Bytes) (list old_ver new_ver state_key : Text) where
  abbrev pub partitions_of : ℕ → ℕ → ℕ
  partitions_of = partition_count R key_prefix skh config token (partition_for digest)

  abbrev pub Between : ℕ → ℕ → R.State → R.State → Type 0
  Between n =
      Upto R L key_prefix skh config token (partition_for digest) n list old_ver new_ver state_key

  -- The new version is indexed, and no forward set has changed.
  abbrev Whole : R.State → R.State → Type 0
  Whole s t =
      Mirrors R key_prefix skh list new_ver token t
      × ((list' ver y : Text)
          → R.sismember t (fwd_key key_prefix skh list' ver) y
            ≡ R.sismember s (fwd_key key_prefix skh list' ver) y)

  whole :
      (n resume : ℕ) (s t : R.State)
      → 0 < n
      → resume ≤ n
      → Between n (resume + (n - resume)) s t
      → Whole s t
  whole n resume s t h k v = (
    record {
      at = λ x.
          v.members x
          ∙ (all_done (partition_for digest x n) resume n _ _ k (partition_for-bound digest x n h)
              ∙ sym (v.forwards list new_ver x));
    },
    v.forwards,
  )

  checked :
      (total card : ℕ) (s t : R.State)
      → Whole s t
      → Outcome
          (λ e u. Unit {0})
          (λ u v. Whole s v)
          (check_total R key_prefix skh config token (partition_for digest) total card t)
  checked total card s t h = elim (Bool-cases (total == card)) [ inl e ↦ rw e h | inr e ↦ rw e tt ]

  resumed-Outcome :
      (n resume old_card new_card : ℕ) (s : R.State)
      → 0 < n
      → resume ≤ n
      → Between n resume s s
      → Outcome
          (λ e t. Unit {0})
          (λ u t. Whole s t)
          (then_with
            (recount R key_prefix skh config token
              (partition_for digest)
              (fwd_key key_prefix skh list old_ver)
              old_card
              n
              resume
              0
              s)
            (λ before t.
              then_with
                (diff_partitions R key_prefix skh config token
                  (partition_for digest)
                  (fwd_key key_prefix skh list old_ver)
                  (fwd_key key_prefix skh list new_ver)
                  state_key
                  old_card
                  new_card
                  n
                  (n - resume)
                  resume
                  t)
                (λ after.
                  check_total R key_prefix skh config token
                    (partition_for digest)
                    (before + after)
                    old_card)))
  resumed-Outcome n resume old_card new_card s h k start =
      let f = partition_for digest in
      let old = fwd_key key_prefix skh list old_ver in
      let rest : R.State → (WorkerError ⊎ ℕ) × R.State =
        diff_partitions R key_prefix skh config token f old (fwd_key key_prefix skh list new_ver)
          state_key old_card new_card n (n - resume) resume in
      then_with-Outcome (λ e t. Unit {0}) (λ before t. Agree R s t) (λ u t. Whole s t)
        (recount R key_prefix skh config token f old old_card n resume 0 s)
        (λ before t.
          then_with (rest t)
            (λ after. check_total R key_prefix skh config token f (before + after) old_card))
        (recount-Outcome R L key_prefix skh config token f n list old_ver new_ver state_key old
          old_card resume 0 s s (λ j x. refl))
        (λ before t a.
          then_with-Outcome (λ e u. Unit {0}) (λ after u. Between n (resume + (n - resume)) s u)
            (λ u t. Whole s t) (rest t)
            (λ after. check_total R key_prefix skh config token f (before + after) old_card)
            (diff_partitions-Outcome R L key_prefix skh config token f n list old_ver new_ver
              state_key old_card new_card (n - resume) resume s t
              (Upto-Agree R L key_prefix skh config token f n list old_ver new_ver state_key resume
                s s t a start))
            (λ after u v. checked (before + after) old_card s u (whole n resume s u h k v)))

  -- For every Redis that obeys the laws: let the old version of the list have members, a partition
  -- have room for one at least, and the reverse index stand where a worker was interrupted, with
  -- the partitions below `resume` at the new version of the list and the others at the old one. If
  -- `apply_streamed_diff` then ends without an error, the token of the list is exactly in the
  -- reverse sets of the members of the new version, and no forward set has changed.
  pub apply_streamed_diff-Mirrors :
      (resume old_card new_card : ℕ) (s : R.State)
      → 0 < config.diff_partition_max_members
      → 0 < old_card
      → Between (partitions_of old_card new_card) resume s s
      → Outcome
          (λ e t. Unit {0})
          (λ u t.
            Mirrors R key_prefix skh list new_ver token t
            × ((list' ver y : Text)
                → R.sismember t (fwd_key key_prefix skh list' ver) y
                  ≡ R.sismember s (fwd_key key_prefix skh list' ver) y))
          (apply_streamed_diff R key_prefix skh config token
            (partition_for digest)
            (some (fwd_key key_prefix skh list old_ver))
            (fwd_key key_prefix skh list new_ver)
            state_key
            resume
            old_card
            new_card
            s)
  unfolding apply_streamed_diff partition_count
  apply_streamed_diff-Mirrors resume old_card new_card s room some_old start =
      let n = partitions_of old_card new_card in
      let empty : (old_card == 0) ≡ false = ground arith in
      let positive : 0 < n =
        count_positive config.diff_partition_max_members (max (max old_card new_card) 1) room
          (at_least_one old_card new_card) in
      elim (Bool-cases (ltb n resume)) [
        | inl e ↦ rw (empty, e) tt
        | inr e ↦
            rw (empty, e)
              (resumed-Outcome n resume old_card new_card s positive (not-ltb→le n resume e) start)
      ]

  none_yet : (p : ℕ) (n o : Bool) → (if ltb p 0 then n else o) ≡ o
  none_yet p n o = ground arith

  -- A difference that has not begun.
  pub Mirrors-Between :
      (n : ℕ) (s : R.State) → Mirrors R key_prefix skh list old_ver token s → Between n 0 s s
  Mirrors-Between n s m = record {
    members = λ x. m.at x ∙ sym (none_yet (partition_for digest x n) _ _);
    forwards = λ list' ver y. refl;
  }
