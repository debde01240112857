-- ===== src/IdList/Worker/Diff.antt =====
-- `apply_streamed_diff` and `scan_partition` of `worker/streamed_diff.rs`: the difference of two
-- versions of a list, one partition of the members at a time. The digest of `partition_for` is a
-- parameter.
pub mod Scanned
pub mod Visited
pub mod Partition
pub mod Difference
pub mod Converged
pub mod Applied
use mathlib.Core.Logic.{inr}
use statsig_forward_proxy.Prelude.{
  ℕ, zero, suc, ◌+◌, ◌-◌, ◌/◌, max, min, true, false, not, Option, none, some, List, [], ◌∷◌, ◌++◌,
  Text, codes, text_beq, ltb, leb, ◌==◌, length, retain, to_string, u64_max, if◌then◌else◌,
}
use statsig_forward_proxy.IdList.Schema.State.{diff_partition_field}
use statsig_forward_proxy.IdList.Worker.Redis.{hash_set, Redis, listed}
use statsig_forward_proxy.IdList.Worker.Config.{WorkerConfig}
use statsig_forward_proxy.IdList.Worker.Step.{scan_verification, Step, fail, done, ◌>>=◌}
use statsig_forward_proxy.IdList.Worker.Scan.{
  chunks_from, chunks, renew_now, renew_at, verify_scan_key_before, verify_scan_complete,
  fanout_members, fanout_scan,
}

-- `HashSet::extend`: a set is the list of its members, each once.
unfoldable pub extend : List Text → List Text → List Text
extend set [] = set
extend set (m ∷ ms) = extend (if listed m set then set else m ∷ set) ms

module _ (R : Redis) (key_prefix skh : Text) (config : WorkerConfig) (token : ℕ)
    (partition_for : Text → ℕ → ℕ) where
  -- The members of the partition in the pages, and the number of all members in them.
  unfoldable pub partition_pages :
      ℕ → ℕ → List (List Text) → ℕ → List Text → ℕ → Step R.State (List Text × ℕ)
  unfolding extend renew_now
  partition_pages partition partitions [] pages members scanned s = (inr (members, scanned), s)
  partition_pages partition partitions (page ∷ rest) pages members scanned s =
      (renew_at R (pages + 1) >>= λ _.
      partition_pages partition partitions rest (pages + 1)
        (extend members (retain (λ m. partition_for m partitions == partition) page))
        (scanned + length page))
        s

  unfoldable pub scan_partition : Text → ℕ → ℕ → ℕ → Step R.State (List Text)
  unfolding partition_pages verify_scan_key_before verify_scan_complete
  scan_partition key expected_card partition partitions s =
      (verify_scan_key_before R key expected_card >>= λ _.
      partition_pages partition partitions (R.sscan s key) 0 [] 0 >>= λ found.
      verify_scan_complete R key expected_card found.1 >>= λ _. done found.0)
        s

  -- The variables of the scan of the new version: what is left of the old members, and the new ones
  -- that have not been sent yet.
  pub record Pending : Type 0 where
    pub existing : List Text
    pub additions : List Text

  unfoldable pub visit_member : Text → Pending → R.State → Pending × R.State
  unfolding fanout_members chunks_from
  visit_member m p s =
      if listed m p.existing
      then (record p { existing = retain (λ x. not (text_beq x m)) p.existing }, s)
      else let full = p.additions ++ (m ∷ []) in
        if leb config.scan_count (length full)
        then (record p { additions = [] }, fanout_members R key_prefix skh config token true full s)
        else (record p { additions = full }, s)

  unfoldable pub visit_page : ℕ → ℕ → List Text → Pending → R.State → Pending × R.State
  unfolding visit_member
  visit_page partition partitions [] p s = (p, s)
  visit_page partition partitions (m ∷ ms) p s =
      let (q, t) = if partition_for m partitions == partition then visit_member m p s else (p, s) in
      visit_page partition partitions ms q t

  unfoldable pub visit_pages :
      ℕ → ℕ → List (List Text) → ℕ → ℕ → Pending → Step R.State (Pending × ℕ)
  unfolding visit_page renew_now
  visit_pages partition partitions [] pages scanned p s = (inr (p, scanned), s)
  visit_pages partition partitions (page ∷ rest) pages scanned p s =
      let (q, t) = visit_page partition partitions page p s in
      (renew_at R (pages + 1) >>= λ _.
      visit_pages partition partitions rest (pages + 1) (scanned + length page) q)
        t

  abbrev pub remove_chunks : List (List Text) → R.State → R.State
  remove_chunks [] s = s
  remove_chunks (c ∷ cs) s =
      remove_chunks cs (fanout_members R key_prefix skh config token false c s)

  -- The scan of the new version, against the old members of the partition.
  unfoldable pub scan_new : Text → ℕ → ℕ → ℕ → List Text → Step R.State (Pending × ℕ)
  unfolding visit_pages verify_scan_key_before
  scan_new new_key new_card partition partitions old =
      verify_scan_key_before R new_key new_card >>= λ _ s.
      visit_pages partition partitions (R.sscan s new_key) 0 0
        (record { existing = old; additions = [] }) s

  -- The last additions, then the removals, then the mark that the partition is done.
  unfoldable pub finish_partition : Text → ℕ → Pending → Step R.State Unit
  unfolding fanout_members chunks_from renew_now
  finish_partition state_key partition p s =
      let added = fanout_members R key_prefix skh config token true p.additions s in
      let removed = remove_chunks (chunks config.scan_count p.existing) added in
      renew_now R (
        R.perform removed (
          hash_set state_key
            ((diff_partition_field, to_string (min u64_max (partition + 1))) ∷ [])))

  -- One partition, and the number of its old members.
  unfoldable pub diff_partition : Text → Text → Text → ℕ → ℕ → ℕ → ℕ → Step R.State ℕ
  unfolding scan_partition scan_new verify_scan_complete finish_partition
  diff_partition old_key new_key state_key old_card new_card partitions partition =
      scan_partition old_key old_card partition partitions >>= λ old.
      scan_new new_key new_card partition partitions old >>= λ seen.
      verify_scan_complete R new_key new_card seen.1 >>= λ _.
      finish_partition state_key partition seen.0 >>= λ _. done (length old)

  -- The partitions that are done are only counted again.
  unfoldable pub recount : Text → ℕ → ℕ → ℕ → ℕ → Step R.State ℕ
  unfolding scan_partition
  recount old_key old_card partitions zero partition = done 0
  recount old_key old_card partitions (suc left) partition =
      scan_partition old_key old_card partition partitions >>= λ old.
      recount old_key old_card partitions left (partition + 1) >>= λ total.
      done (length old + total)

  unfoldable pub diff_partitions : Text → Text → Text → ℕ → ℕ → ℕ → ℕ → ℕ → Step R.State ℕ
  unfolding diff_partition
  diff_partitions old_key new_key state_key old_card new_card partitions zero partition = done 0
  diff_partitions old_key new_key state_key old_card new_card partitions (suc left) partition =
      diff_partition old_key new_key state_key old_card new_card partitions partition >>= λ n.
      diff_partitions old_key new_key state_key old_card new_card partitions left (partition + 1)
      >>= λ total. done (n + total)

  -- `div_ceil` of a positive limit.
  unfoldable pub partition_count : ℕ → ℕ → ℕ
  partition_count old_card new_card =
      (max (max old_card new_card) 1 + (config.diff_partition_max_members - 1))
      / config.diff_partition_max_members

  abbrev check_total : ℕ → ℕ → Step R.State Unit
  check_total total old_card =
      if total == old_card
      then done tt
      else fail (
          scan_verification (
            codes "old distinct total "
            ++ (to_string total ++ (codes " != SCARD " ++ to_string old_card))))

  unfoldable pub apply_streamed_diff : Option Text → Text → Text → ℕ → ℕ → ℕ → Step R.State Unit
  unfolding fanout_scan recount diff_partitions partition_count
  apply_streamed_diff old_key new_key state_key resume_partition old_card new_card =
      let partitions = partition_count old_card new_card in
      if old_card == 0
      then fanout_scan R key_prefix skh config token new_key true new_card
      else elim old_key [
        | none ↦ fail (scan_verification (codes "old cardinality is non-zero without a key"))
        | some old ↦
            if ltb partitions resume_partition
            then fail (
                scan_verification (
                  codes "resume partition "
                  ++ (to_string resume_partition
                      ++ (codes " exceeds partition count " ++ to_string partitions))))
            else recount old old_card partitions resume_partition 0 >>= λ before.
                diff_partitions old new_key state_key old_card new_card partitions
                  (partitions - resume_partition) resume_partition
                >>= λ after. check_total (before + after) old_card
      ]
