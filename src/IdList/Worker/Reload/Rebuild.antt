-- ===== src/IdList/Worker/Reload/Rebuild.antt =====
-- The reverse index after `rebuild_index`, whatever it held before.
use statsig_forward_proxy.Prelude.{
  ℕ, ◌≡◌, ◌∙◌, refl, sym, Bool, true, false, Text, if◌then◌else◌, to_string,
}
use statsig_forward_proxy.IdList.Schema.Keys.{member_key, fwd_key}
use statsig_forward_proxy.IdList.Worker.Redis.{Redis, IsRedis}
use statsig_forward_proxy.IdList.Worker.Config.{WorkerConfig}
use statsig_forward_proxy.IdList.Worker.Step.{Outcome, Outcome-weaken, then_with-Outcome}
use statsig_forward_proxy.IdList.Worker.Apply.Index.{Mirrors}
use statsig_forward_proxy.IdList.Worker.Scan.{fanout_scan, clear_reverse_token}
use statsig_forward_proxy.IdList.Worker.Scan.Fanout.{fanout_scan-Outcome}
use statsig_forward_proxy.IdList.Worker.Scan.Clear.{clear_reverse_token-Outcome}
use statsig_forward_proxy.IdList.Worker.Reload.{Download, rebuild_index}

module _ (R : Redis) (L : IsRedis R) (key_prefix skh list ver : Text) (config : WorkerConfig)
    (download : Download) where
  abbrev Same : R.State → R.State → Type 0
  Same s t =
      (y : Text)
      → R.sismember t (fwd_key key_prefix skh list ver) y
        ≡ R.sismember s (fwd_key key_prefix skh list ver) y

  -- The repair of the index: however it ends, the forward set is unchanged, and if no error ended it,
  -- the set of a member holds the token exactly if the forward set holds the member, whatever the
  -- index held before.
  pub rebuild_index-Mirrors :
      (token card : ℕ) (s : R.State)
      → Outcome
          (λ e t. Same s t)
          (λ u t. Same s t × Mirrors R key_prefix skh list ver token t)
          (rebuild_index R key_prefix skh list config download
            (fwd_key key_prefix skh list ver)
            token
            card
            s)
  unfolding rebuild_index
  rebuild_index-Mirrors token card s =
      then_with-Outcome (λ e t. Same s t)
        (λ u t.
          Same s t
          × ((x : Text) → R.sismember t (member_key key_prefix skh x) (to_string token) ≡ false))
        (λ u t. Same s t × Mirrors R key_prefix skh list ver token t)
        (clear_reverse_token R key_prefix skh config token s)
        (λ _. fanout_scan R key_prefix skh config token (fwd_key key_prefix skh list ver) true card)
        (clear_reverse_token-Outcome R L key_prefix skh list ver config token s)
        (λ u t (same, empty).
          Outcome-weaken _ (λ e v. Same s v) _
            (λ k v. Same s v × Mirrors R key_prefix skh list ver token v)
            (fanout_scan R key_prefix skh config token (fwd_key key_prefix skh list ver) true card
              t)
            (λ e v h y. h y ∙ same y)
            (λ k v (h, full). (
              λ y. h y ∙ same y,
              record {
                at = λ x. full x ∙ (rw (empty x) (as_member (R.sismember t _ x)) ∙ sym (h x));
              },
            ))
            (fanout_scan-Outcome R L key_prefix skh list ver config token true card t))
    where
      as_member : (b : Bool) → (if b then true else false) ≡ b
      as_member true = refl
      as_member false = refl
