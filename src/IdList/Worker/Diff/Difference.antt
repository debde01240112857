-- ===== src/IdList/Worker/Diff/Difference.antt =====
-- `apply_streamed_diff` takes the reverse index from the old version of a list to the new one.
use statsig_forward_proxy.Prelude.{
  ℕ, ◌≡◌, ◌∙◌, refl, sym, Bool, true, false, ◌&&◌, List, [], Text, length, to_string,
}
use statsig_forward_proxy.IdList.Schema.Keys.{member_key, fwd_key}
use statsig_forward_proxy.IdList.Worker.Redis.{listed, Redis, IsRedis}
use statsig_forward_proxy.IdList.Worker.Config.{WorkerConfig}
use statsig_forward_proxy.IdList.Worker.Step.{Outcome, then_with, then_with-Outcome, done}
use statsig_forward_proxy.IdList.Worker.Scan.{verify_scan_complete}
use statsig_forward_proxy.IdList.Worker.Scan.Fanout.{verify_complete-Outcome}
use statsig_forward_proxy.IdList.Worker.Diff.{
  Pending, scan_partition, scan_new, finish_partition, diff_partition,
}
use statsig_forward_proxy.IdList.Worker.Diff.Scanned.{Agree, Found, scan_partition-Outcome}
use statsig_forward_proxy.IdList.Worker.Diff.Partition.{
  Sees, within, Moved, scan_new-Outcome, finish_partition-Outcome,
}

both : (a b : Bool) → a && b ≡ true → (a ≡ true) × (b ≡ true)
both true b h = (refl, h)
both false b h = cc

module _ (R : Redis) (L : IsRedis R) (key_prefix skh : Text) (config : WorkerConfig) (token : ℕ)
    (partition_for : Text → ℕ → ℕ) (partitions : ℕ) (old_key new_key state_key : Text)
    (old_card new_card : ℕ) where
  abbrev pub in_partition : ℕ → Text → Bool
  in_partition k = within R L key_prefix skh config token partition_for k partitions

  abbrev pub Goes : ℕ → (Text → Bool) → R.State → R.State → Type 0
  Goes k = Moved R L key_prefix skh config token partition_for k partitions

  pub diff_partition-Outcome :
      (k : ℕ) (s : R.State)
      → ((x : Text)
          → in_partition k x ≡ true
          → R.sismember s (member_key key_prefix skh x) (to_string token) ≡ R.sismember s old_key x)
      → Outcome
          (λ e t. Unit {0})
          (λ n t. Goes k (R.sismember s new_key) s t)
          (diff_partition R key_prefix skh config token partition_for old_key new_key state_key
            old_card new_card partitions k s)
  unfolding diff_partition
  diff_partition-Outcome k s before =
      let Sees_at : List Text
          → R.State
          → Pending R key_prefix skh config token partition_for
          → R.State
          → Type 0 =
        λ old t.
          Sees R L key_prefix skh config token partition_for k partitions (λ x. listed x old)
            (R.sismember t new_key) t in
      then_with-Outcome (λ e t. Unit {0}) (λ old t. Found_at k s old t)
        (λ n t. Goes k (R.sismember s new_key) s t)
        (scan_partition R key_prefix skh config token partition_for old_key old_card k partitions s)
        (λ old t.
          then_with
            (scan_new R key_prefix skh config token partition_for new_key new_card k partitions old
              t)
            (λ seen u. then_with (verify_scan_complete R new_key new_card seen.1 u) (λ _ v.
              then_with
                (finish_partition R key_prefix skh config token partition_for state_key k seen.0 v)
                (λ _. done (length old)))))
        (scan_partition-Outcome R L key_prefix skh config token partition_for k partitions old_key
          old_card s)
        (λ old t f.
          then_with-Outcome (λ e u. Unit {0}) (λ seen u. Sees_at old t seen.0 u)
            (λ n u. Goes k (R.sismember s new_key) s u)
            (scan_new R key_prefix skh config token partition_for new_key new_card k partitions old
              t)
            (λ seen u. then_with (verify_scan_complete R new_key new_card seen.1 u) (λ _ v.
              then_with
                (finish_partition R key_prefix skh config token partition_for state_key k seen.0 v)
                (λ _. done (length old))))
            (scan_new-Outcome R L key_prefix skh config token partition_for k partitions new_key
              new_card old t (λ x h. old_held k s t old x f before h))
            (λ seen u v.
              then_with-Outcome (λ e w. Unit {0}) (λ z w. Sees_at old t seen.0 w)
                (λ n w. Goes k (R.sismember s new_key) s w)
                (verify_scan_complete R new_key new_card seen.1 u)
                (λ _ w.
                  then_with
                    (finish_partition R key_prefix skh config token partition_for state_key k seen.0
                      w)
                    (λ _. done (length old)))
                (verify_complete-Outcome R L key_prefix skh [] [] config token (λ w. Unit {0})
                  (Sees_at old t seen.0) new_key new_card seen.1 u tt v)
                (λ z w v'.
                  then_with-Outcome (λ e y. Unit {0}) (λ z' y. Goes k (R.sismember t new_key) t y)
                    (λ n y. Goes k (R.sismember s new_key) s y)
                    (finish_partition R key_prefix skh config token partition_for state_key k seen.0
                      w)
                    (λ _. done (length old))
                    (finish_partition-Outcome R L key_prefix skh config token partition_for k
                      partitions state_key (R.sismember s old_key) (R.sismember t new_key) old t w
                      seen.0 f.members_found
                      (λ x i. f.agree (member_key key_prefix skh x) (to_string token) ∙ before x i)
                      v')
                    (λ z' y g. from_start k s t y f.agree g))))
    where
      Found_at : ℕ → R.State → List Text → R.State → Type 0
      Found_at k s =
          Found R L key_prefix skh config token partition_for k partitions []
            (R.sismember s old_key) s

      old_held :
          (k : ℕ) (s t : R.State) (old : List Text) (x : Text)
          → Found_at k s old t
          → ((y : Text)
              → in_partition k y ≡ true
              → R.sismember s (member_key key_prefix skh y) (to_string token)
                ≡ R.sismember s old_key y)
          → listed x old ≡ true
          → R.sismember t (member_key key_prefix skh x) (to_string token) ≡ true
      old_held k s t old x f before h =
          let (i, o) =
            both (in_partition k x) (R.sismember s old_key x) (sym (f.members_found x) ∙ h) in
          f.agree (member_key key_prefix skh x) (to_string token) ∙ (before x i ∙ o)

      from_start :
          (k : ℕ) (s t y : R.State)
          → Agree R s t
          → Goes k (R.sismember t new_key) t y
          → Goes k (R.sismember s new_key) s y
      from_start k s t y agree g = record {
        members = λ x.
            g.members x
            ∙ rw (agree new_key x, agree (member_key key_prefix skh x) (to_string token)) refl;
        forwards = λ list ver z. g.forwards list ver z ∙ agree (fwd_key key_prefix skh list ver) z;
      }
