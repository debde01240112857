-- ===== src/IdList/Worker/Scan.antt =====
-- `worker/streamed_diff.rs`: scans over the sets of a list, which keep the reverse index in step. The
-- pages of a scan are those that Redis answers while the scanned key does not change.
pub mod Fanout
pub mod Clear
use mathlib.Core.Logic.{inl, inr}
use statsig_forward_proxy.Prelude.{
  ℕ, suc, ◌+◌, ◌-◌, ◌/◌, ◌%◌, max, Bool, true, false, not, ◌&&◌, ◌||◌, Option, none, some, List, [],
  ◌∷◌, ◌++◌, ◌⊎◌, map, Text, codes, text_beq, ltb, leb, ◌==◌, length, is_empty, retain, to_string,
  if◌then◌else◌,
}
use statsig_forward_proxy.IdList.Schema.State.{diff_partition_field}
use statsig_forward_proxy.IdList.Schema.Keys.{member_key}
use statsig_forward_proxy.IdList.Worker.Redis.{
  Command, set_remove, Redis, query, glob_escape, prefix_pattern,
}
use statsig_forward_proxy.IdList.Worker.Config.{WorkerConfig}
use statsig_forward_proxy.IdList.Worker.Step.{
  WorkerError, lock_lost, scan_verification, Step, fail, done, ◌>>=◌,
}
use statsig_forward_proxy.IdList.Worker.Apply.{set_command}

abbrev pub lock_renewal_scan_pages : ℕ
lock_renewal_scan_pages = 512

module _ {A : Type 0} where
  -- `chunks` of a positive size; `started` is the chunk that is being filled.
  unfoldable pub chunks_from : ℕ → List A → List A → List (List A)
  chunks_from size started [] = if is_empty started then [] else started ∷ []
  chunks_from size started (x ∷ xs) =
      let full = started ++ (x ∷ []) in
      let closed = chunks_from size [] xs in
      let more = chunks_from size full xs in if leb size (length full) then full ∷ closed else more

  abbrev pub chunks : ℕ → List A → List (List A)
  chunks size = chunks_from size []

module _ (R : Redis) where
  unfoldable pub renew_now : Step R.State Unit
  renew_now s =
      if R.claim_lost s
      then (inl lock_lost, s)
      else let (held, t) = R.renew s in (if held then inr tt else inl lock_lost, t)

  abbrev pub renew_at : ℕ → Step R.State Unit
  renew_at pages s = if pages % lock_renewal_scan_pages == 0 then renew_now s else (inr tt, s)

  unfoldable pub verify_scan_key_before : Text → ℕ → Step R.State Unit
  verify_scan_key_before key expected_card s =
      if ltb 0 expected_card && not (R.exists s key)
      then (inl (scan_verification (key ++ codes " disappeared before scan")), s)
      else (inr tt, s)

  unfoldable pub verify_scan_complete : Text → ℕ → ℕ → Step R.State Unit
  verify_scan_complete key expected_card scanned s =
      if ltb scanned expected_card || (ltb 0 expected_card && not (R.exists s key))
      then (
        inl (
            scan_verification (
              key
              ++ (codes ": scanned "
                  ++ (to_string scanned
                      ++ (codes ", expected at least " ++ to_string expected_card))))),
        s,
      )
      else (inr tt, s)

  -- One pipeline after another.
  unfoldable pub query_all : R.State → List (List Command) → R.State
  query_all s [] = s
  query_all s (p ∷ ps) = query_all (query R s p) ps

  module _ (key_prefix skh : Text) (config : WorkerConfig) (token : ℕ) where
    abbrev pub fanout_command : Bool → Text → Command
    fanout_command add member = set_command add (member_key key_prefix skh member) (to_string token)

    unfoldable pub fanout_members : Bool → List Text → R.State → R.State
    unfolding query_all chunks_from
    fanout_members add members s =
        query_all s (map (map (fanout_command add)) (chunks config.pipeline_batch_size members))

    -- The loop of `fanout_scan`: the members that the pages held.
    unfoldable pub fanout_pages : Bool → List (List Text) → ℕ → ℕ → Step R.State ℕ
    unfolding fanout_members renew_now
    fanout_pages add [] pages scanned s = (inr scanned, s)
    fanout_pages add (members ∷ rest) pages scanned s =
        (renew_at (pages + 1) >>= λ _. fanout_pages add rest (pages + 1) (scanned + length members))
          (fanout_members add members s)

    unfoldable pub fanout_scan : Text → Bool → ℕ → Step R.State Unit
    unfolding fanout_pages verify_scan_key_before verify_scan_complete
    fanout_scan key add expected_card s =
        (verify_scan_key_before key expected_card >>= λ _.
        fanout_pages add (R.sscan s key) 0 0 >>= λ scanned.
        verify_scan_complete key expected_card scanned)
          s

    -- The loop of `clear_reverse_token` over the pages of keys.
    unfoldable pub clear_pages : List (List Text) → Step R.State Unit
    unfolding renew_now query_all chunks_from
    clear_pages [] = done tt
    clear_pages (keys ∷ rest) = renew_now >>= λ _ s. clear_pages rest (
        query_all s (
          map (map (λ key. set_remove key (to_string token)))
            (chunks config.pipeline_batch_size keys)))

    unfoldable pub clear_reverse_token : Step R.State Unit
    unfolding clear_pages glob_escape member_key
    clear_reverse_token s = clear_pages (R.scan s (prefix_pattern (member_key key_prefix skh []))) s
