-- ===== src/IdList/Worker/Scan/Clear.antt =====
-- What `clear_reverse_token` leaves of the reverse index of a list, and what the index is after it is
-- filled again from a forward set.
use mathlib.Core.List.{flatten}
use mathlib.Core.Logic.{inl, inr}
use statsig_forward_proxy.Prelude.{
  ℕ, ◌≡◌, ◌∙◌, refl, sym, ap, Bool, true, false, not, ◌&&◌, List, [], ◌∷◌, ◌++◌, map, arith, Text,
  text_beq, text_beq_refl, to_string, Bool-cases,
}
use statsig_forward_proxy.IdList.Schema.Keys.{member_key, fwd_key, escape_component}
use statsig_forward_proxy.IdList.Schema.Apart.{member_key-prefix, fwd_key-no_prefix}
use statsig_forward_proxy.IdList.Worker.Redis.{
  set_remove, member_after_all, listed, prefix_pattern, Redis, IsRedis, sismember-query,
}
use statsig_forward_proxy.IdList.Worker.Config.{WorkerConfig}
use statsig_forward_proxy.IdList.Worker.Step.{Outcome, Outcome-weaken, then_with-Outcome}
use statsig_forward_proxy.IdList.Worker.Scan.{
  chunks, query_all, renew_now, clear_pages, clear_reverse_token,
}
use statsig_forward_proxy.IdList.Worker.Scan.Fanout.{
  indexed, in_forward, SameForward, renew_now-Outcome, query_all-chunks, listed-append,
}

listed_remove :
    (tok j x : Text) (ks : List Text) (old : Bool)
    → member_after_all j x (map (λ key. set_remove key tok) ks) old
      ≡ not (listed j ks && text_beq tok x) && old
listed_remove tok j x [] old = ground arith
listed_remove tok j x (k ∷ ks) old = listed_remove tok j x ks _ ∙ ground arith

module _ (R : Redis) (L : IsRedis R) (key_prefix skh list ver : Text) (config : WorkerConfig)
    (token : ℕ) where
  abbrev member : Text → Text
  member = member_key key_prefix skh

  abbrev holds : R.State → Text → Bool
  holds = indexed R L key_prefix skh list ver config token

  abbrev forward : R.State → Text → Bool
  forward = in_forward R L key_prefix skh list ver config token

  abbrev Same : R.State → R.State → Type 0
  Same = SameForward R L key_prefix skh list ver config token

  -- The token is gone from the sets of the keys.
  record Cleared (keys : List Text) (s t : R.State) : Type 0 where
    pub members : (x : Text) → holds t x ≡ not (listed (member x) keys) && holds s x
    pub same : Same s t

  abbrev clear_keys : List Text → R.State → R.State
  clear_keys keys s =
      query_all R s (
        map (map (λ key. set_remove key (to_string token)))
          (chunks config.pipeline_batch_size keys))

  clear_keys-Cleared :
      (keys : List Text) (s : R.State)
      → listed (fwd_key key_prefix skh list ver) keys ≡ false
      → Cleared keys s (clear_keys keys s)
  clear_keys-Cleared keys s apart =
      rw
        (query_all-chunks R (λ key. set_remove key (to_string token)) config.pipeline_batch_size
          keys s)
        (record {
          members = λ x.
              sismember-query R L s _ (member x) (to_string token)
              ∙ (listed_remove (to_string token) (member x) (to_string token) keys (holds s x)
                  ∙ rw (text_beq_refl (to_string token)) (ground arith));
          same = λ y.
              sismember-query R L s _ (fwd_key key_prefix skh list ver) y
              ∙ (listed_remove (to_string token) (fwd_key key_prefix skh list ver) y keys
                    (forward s y)
                  ∙ rw apart refl);
        })

  clear_pages-Outcome :
      (pages : List (List Text)) (s : R.State)
      → listed (fwd_key key_prefix skh list ver) (flatten pages) ≡ false
      → Outcome
          (λ e t. Same s t)
          (λ u t. Cleared (flatten pages) s t)
          (clear_pages R key_prefix skh config token pages s)
  unfolding clear_pages flatten
  clear_pages-Outcome [] s apart = record { members = λ x. refl; same = λ y. refl }
  clear_pages-Outcome (keys ∷ rest) s apart =
      let (here, later) = apart_append keys (flatten rest) apart in
      then_with-Outcome (λ e t. Same s t) (λ u t. Agree s t)
        (λ u t. Cleared (keys ++ flatten rest) s t) (renew_now R s)
        (λ u t. clear_pages R key_prefix skh config token rest (clear_keys keys t))
        (Outcome-weaken (λ e t. Agree s t) (λ e t. Same s t) (λ u t. Agree s t) (λ u t. Agree s t)
          (renew_now R s) (λ e t h y. h (fwd_key key_prefix skh list ver) y) (λ u t h. h)
          (renew_now-Outcome R L key_prefix skh list ver config token (Agree s) s (λ t h. h)))
        (λ u t h.
          let v = clear_keys keys t in
          let c = clear_keys-Cleared keys t here in
          let fwd = fwd_key key_prefix skh list ver in
          Outcome-weaken (λ e w. Same v w) (λ e w. Same s w) (λ k w. Cleared (flatten rest) v w)
            (λ k w. Cleared (keys ++ flatten rest) s w)
            (clear_pages R key_prefix skh config token rest v)
            (λ e w same y. same y ∙ (c.same y ∙ h fwd y))
            (λ k w d. record {
              members = λ x.
                  d.members x
                  ∙ (ap (λ b. not (listed (member x) (flatten rest)) && b)
                        (c.members x
                          ∙ ap (λ b. not (listed (member x) keys) && b)
                              (h (member x) (to_string token)))
                      ∙ rw (listed-append (member x) keys (flatten rest)) (ground arith));
              same = λ y. d.same y ∙ (c.same y ∙ h fwd y);
            })
            (clear_pages-Outcome rest v later))
    where
      Agree : R.State → R.State → Type 0
      Agree a b = (j x : Text) → R.sismember b j x ≡ R.sismember a j x

      apart_append :
          (ks ls : List Text)
          → listed (fwd_key key_prefix skh list ver) (ks ++ ls) ≡ false
          → (listed (fwd_key key_prefix skh list ver) ks ≡ false)
            × (listed (fwd_key key_prefix skh list ver) ls ≡ false)
      apart_append ks ls h =
          let both = sym (listed-append (fwd_key key_prefix skh list ver) ks ls) ∙ h in
          (ground arith, ground arith)

  forward_unlisted :
      (s : R.State)
      → listed
          (fwd_key key_prefix skh list ver)
          (flatten (R.scan s (prefix_pattern (member_key key_prefix skh []))))
        ≡ false
  forward_unlisted s =
      elim (Bool-cases (
        listed (fwd_key key_prefix skh list ver)
          (flatten (R.scan s (prefix_pattern (member_key key_prefix skh [])))))) [
            | inl e ↦
                let (rest, h) = L.scan_prefix s (member_key key_prefix skh []) _ e in
                absurd (fwd_key-no_prefix key_prefix skh list ver rest h)
            | inr e ↦ e
          ]

  scanned_if_held :
      (s : R.State) (x : Text)
      → holds s x ≡ true
      → listed (member x) (flatten (R.scan s (prefix_pattern (member_key key_prefix skh []))))
        ≡ true
  scanned_if_held s x h = rw (member_key-prefix key_prefix skh x) (
      L.scan_members s (member_key key_prefix skh []) (escape_component x) (to_string token)
        (rw (← member_key-prefix key_prefix skh x) h))

  gone :
      (s t : R.State) (x : Text)
      → Cleared (flatten (R.scan s (prefix_pattern (member_key key_prefix skh [])))) s t
      → holds t x ≡ false
  gone s t x c = elim (Bool-cases (holds s x)) [
    | inl e ↦ c.members x ∙ rw (scanned_if_held s x e) refl
    | inr e ↦ c.members x ∙ rw e (ground arith)
  ]

  -- Without an error no member holds the token any more, and in any case the forward set is the same.
  pub clear_reverse_token-Outcome :
      (s : R.State)
      → Outcome
          (λ e t. Same s t)
          (λ u t. Same s t × ((x : Text) → holds t x ≡ false))
          (clear_reverse_token R key_prefix skh config token s)
  unfolding clear_reverse_token
  clear_reverse_token-Outcome s =
      let pages = R.scan s (prefix_pattern (member_key key_prefix skh [])) in
      Outcome-weaken (λ e t. Same s t) (λ e t. Same s t) (λ u t. Cleared (flatten pages) s t)
        (λ u t. Same s t × ((x : Text) → holds t x ≡ false))
        (clear_pages R key_prefix skh config token pages s) (λ e t h. h)
        (λ u t c. (c.same, λ x. gone s t x c)) (clear_pages-Outcome pages s (forward_unlisted s))
