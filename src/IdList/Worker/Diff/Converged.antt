-- ===== src/IdList/Worker/Diff/Converged.antt =====
-- The loop of `apply_streamed_diff` over the partitions, from where it was interrupted.
use statsig_forward_proxy.Prelude.{
  ℕ, zero, suc, ◌+◌, ◌≡◌, ◌∙◌, sym, ap, Bool, true, arith, Text, [], length, ltb, ◌==◌,
  if◌then◌else◌, to_string,
}
use statsig_forward_proxy.IdList.Schema.Keys.{member_key, fwd_key}
use statsig_forward_proxy.IdList.Worker.Redis.{Redis, IsRedis}
use statsig_forward_proxy.IdList.Worker.Config.{WorkerConfig}
use statsig_forward_proxy.IdList.Worker.Step.{
  Outcome, Outcome-weaken, then_with, then_with-Outcome, done,
}
use statsig_forward_proxy.IdList.Worker.Diff.{
  scan_partition, diff_partition, diff_partitions, recount,
}
use statsig_forward_proxy.IdList.Worker.Diff.Scanned.{Agree, Found, scan_partition-Outcome}
use statsig_forward_proxy.IdList.Worker.Diff.Difference.{Goes, diff_partition-Outcome}

not_yet : (p k : ℕ) (n o : Bool) → (p == k) ≡ true → (if ltb p k then n else o) ≡ o
not_yet p k n o h = ground arith

one_more :
    (p k : ℕ) (n o : Bool)
    → (if p == k then n else (if ltb p k then n else o)) ≡ (if ltb p (k + 1) then n else o)
one_more p k n o = ground arith

module _ (R : Redis) (L : IsRedis R) (key_prefix skh : Text) (config : WorkerConfig) (token : ℕ)
    (partition_for : Text → ℕ → ℕ) (partitions : ℕ) (list old_ver new_ver state_key : Text) where
  abbrev in_version : R.State → Text → Text → Bool
  in_version s ver = R.sismember s (fwd_key key_prefix skh list ver)

  abbrev indexed : R.State → Text → Bool
  indexed s x = R.sismember s (member_key key_prefix skh x) (to_string token)

  -- The partitions below `k` are at the new version, the others at the old one, and the forward
  -- sets are those of `s`.
  pub record Upto (k : ℕ) (s t : R.State) : Type 0 where
    pub members :
        (x : Text)
        → indexed t x ≡ (
            if ltb (partition_for x partitions) k
            then in_version s new_ver x
            else in_version s old_ver x)
    pub forwards :
        (list' ver y : Text)
        → R.sismember t (fwd_key key_prefix skh list' ver) y
          ≡ R.sismember s (fwd_key key_prefix skh list' ver) y

  pub Upto-Agree : (k : ℕ) (s t u : R.State) → Agree R t u → Upto k s t → Upto k s u
  Upto-Agree k s t u h v = record {
    members = λ x. h (member_key key_prefix skh x) (to_string token) ∙ v.members x;
    forwards = λ list' ver y. h (fwd_key key_prefix skh list' ver) y ∙ v.forwards list' ver y;
  }

  abbrev in_new : R.State → Text → Bool
  in_new t = in_version t new_ver

  Upto-suc :
      (k : ℕ) (s t u : R.State)
      → Upto k s t
      → Goes R L key_prefix skh config token partition_for partitions
          (fwd_key key_prefix skh list old_ver)
          (fwd_key key_prefix skh list new_ver)
          state_key
          0
          0
          k
          (in_new t)
          t
          u
      → Upto (k + 1) s u
  Upto-suc k s t u v g = record {
    members = λ x.
        g.members x
        ∙ (ap (λ b. if partition_for x partitions == k then b else indexed t x)
              (v.forwards list new_ver x)
            ∙ (ap (λ b. if partition_for x partitions == k then in_version s new_ver x else b)
                  (v.members x)
                ∙ one_more (partition_for x partitions) k (in_version s new_ver x)
                    (in_version s old_ver x)));
    forwards = λ list' ver y. g.forwards list' ver y ∙ v.forwards list' ver y;
  }

  pub diff_partitions-Outcome :
      (old_card new_card left k : ℕ) (s t : R.State)
      → Upto k s t
      → Outcome
          (λ e u. Unit {0})
          (λ n u. Upto (k + left) s u)
          (diff_partitions R key_prefix skh config token partition_for
            (fwd_key key_prefix skh list old_ver)
            (fwd_key key_prefix skh list new_ver)
            state_key
            old_card
            new_card
            partitions
            left
            k
            t)
  unfolding diff_partitions
  diff_partitions-Outcome old_card new_card zero k s t v = let e : k + 0 ≡ k = omega arith in rw e v
  diff_partitions-Outcome old_card new_card (suc left) k s t v =
      let old = fwd_key key_prefix skh list old_ver in
      let new = fwd_key key_prefix skh list new_ver in
      let rest : R.State → Type 0 = Upto (k + suc left) s in
      then_with-Outcome (λ e u. Unit {0}) (λ n u. Upto (k + 1) s u) (λ n u. rest u)
        (diff_partition R key_prefix skh config token partition_for old new state_key old_card
          new_card partitions k t)
        (λ n u.
          then_with
            (diff_partitions R key_prefix skh config token partition_for old new state_key old_card
              new_card partitions left (k + 1) u)
            (λ total. done (n + total)))
        (Outcome-weaken (λ e u. Unit {0}) (λ e u. Unit {0})
          (λ n u.
            Goes R L key_prefix skh config token partition_for partitions old new state_key old_card
              new_card k (in_new t) t u)
          (λ n u. Upto (k + 1) s u)
          (diff_partition R key_prefix skh config token partition_for old new state_key old_card
            new_card partitions k t)
          (λ e u h. tt) (λ n u g. Upto-suc k s t u v g)
          (diff_partition-Outcome R L key_prefix skh config token partition_for partitions old new
            state_key old_card new_card k t
            (λ x h.
              v.members x
              ∙ (not_yet (partition_for x partitions) k (in_version s new_ver x)
                    (in_version s old_ver x) h
                  ∙ sym (v.forwards list old_ver x)))))
        (λ n u w.
          then_with-Outcome (λ e z. Unit {0}) (λ total z. rest z) (λ total z. rest z)
            (diff_partitions R key_prefix skh config token partition_for old new state_key old_card
              new_card partitions left (k + 1) u)
            (λ total. done (n + total))
            (let e : k + suc left ≡ (k + 1) + left = omega arith in
              rw e (diff_partitions-Outcome old_card new_card left (k + 1) s u w))
            (λ total z h. h))

  pub recount-Outcome :
      (key : Text) (card left k : ℕ) (s t : R.State)
      → Agree R s t
      → Outcome
          (λ e u. Unit {0})
          (λ n u. Agree R s u)
          (recount R key_prefix skh config token partition_for key card partitions left k t)
  unfolding recount
  recount-Outcome key card zero k s t v = v
  recount-Outcome key card (suc left) k s t v =
      then_with-Outcome (λ e u. Unit {0})
        (λ found u.
          Found R L key_prefix skh config token partition_for k partitions [] (R.sismember t key) t
            found u)
        (λ n u. Agree R s u)
        (scan_partition R key_prefix skh config token partition_for key card k partitions t)
        (λ found u.
          then_with
            (recount R key_prefix skh config token partition_for key card partitions left (k + 1) u)
            (λ total. done (length found + total)))
        (scan_partition-Outcome R L key_prefix skh config token partition_for k partitions key card
          t)
        (λ found u f.
          then_with-Outcome (λ e z. Unit {0}) (λ total z. Agree R s z) (λ total z. Agree R s z)
            (recount R key_prefix skh config token partition_for key card partitions left (k + 1) u)
            (λ total. done (length found + total))
            (recount-Outcome key card left (k + 1) s u (λ j x. f.agree j x ∙ v j x))
            (λ total z h. h))
