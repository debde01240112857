-- ===== src/IdList/Worker/Removal/Cleared.antt =====
-- What `apply_remove` leaves of a list.
use mathlib.Core.Logic.{inl, inr}
use statsig_forward_proxy.Prelude.{
  ℕ, zero, suc, ltb, ◌⊎◌, ◌&&◌, unwrap_or, [], ◌∷◌, ◌≡◌, ◌∙◌, refl, sym, ap, subst, Bool, true,
  false, Option, none, some, List, Text, get, text_eq, text_beq_refl, to_string, Bool-cases,
  if◌then◌else◌,
}
use statsig_forward_proxy.IdList.Schema.State.{ListSyncState, removal_fanout_complete_field}
use statsig_forward_proxy.IdList.Schema.Keys.{
  dict_key, member_key, fwd_key, state_key, all_lists_key,
}
use statsig_forward_proxy.IdList.Schema.Tokens.{get_token}
use statsig_forward_proxy.IdList.Worker.Redis.{
  Command, hash_set, member_after_all, Redis, IsRedis, query, sismember-query, hgetall-query,
}
use statsig_forward_proxy.IdList.Worker.Send.{
  first, All-first, ask, send, ask-Outcome, send-Outcome,
}
use statsig_forward_proxy.IdList.Worker.Config.{WorkerConfig}
use statsig_forward_proxy.IdList.Worker.Step.{
  WorkerError, then_with, Outcome, Outcome-weaken, then_with-Outcome,
}
use statsig_forward_proxy.IdList.Worker.Apply.Index.{Mirrors}
use statsig_forward_proxy.IdList.Worker.Scan.Fanout.{fanout_scan-Outcome}
use statsig_forward_proxy.IdList.Worker.Scan.Clear.{clear_reverse_token-Outcome}
use statsig_forward_proxy.IdList.Worker.Commit.{lookup, one}
use statsig_forward_proxy.IdList.Worker.Removal.{
  cleanup_commands, incomplete, ask_missing, take_token, remove_token, mark_complete, apply_remove,
}
use statsig_forward_proxy.IdList.Worker.Removal.Cleanup.{
  Takes, Takes-all, cleanup-Takes, Keeps, cleanup-Keeps, Keeps-all, cleanup-forward,
  cleanup-registered, cleanup-fields,
}

if_on :
    {A : Type 0} (P : A → Type 0) (b : Bool) (x y : A)
    → b ≡ true
    → P x
    → P (if b && true then x else y)
if_on P true x y h p = p
if_on P false x y h p = cc

module _ (R : Redis) (L : IsRedis R) (key_prefix skh list : Text) (config : WorkerConfig) where
  abbrev member : Text → Text
  member = member_key key_prefix skh

  -- No member is indexed under the token.
  abbrev Unindexed : ℕ → R.State → Type 0
  Unindexed token t = (x : Text) → R.sismember t (member x) (to_string token) ≡ false

  -- Nothing is left of the list with this token: no member is indexed under it, the forward set of
  -- its version is empty, it is not among all the lists, and its state has no fields.
  pub record Gone (token : ℕ) (ver : Text) (t : R.State) : Type 0 where
    pub indexed : (x : Text) → R.sismember t (member_key key_prefix skh x) (to_string token) ≡ false
    pub forward : (y : Text) → R.sismember t (fwd_key key_prefix skh list ver) y ≡ false
    pub registered : R.sismember t (all_lists_key key_prefix skh) list ≡ false
    pub fields : (f : Text) → get f (R.hgetall t (state_key key_prefix skh list)) ≡ none

  abbrev cleanup : ListSyncState → Option ℕ → List Command
  cleanup = cleanup_commands key_prefix skh list

  -- The forward set of the version that is removed.
  abbrev Same : Text → R.State → R.State → Type 0
  Same ver s t =
      (y : Text)
      → R.sismember t (fwd_key key_prefix skh list ver) y
        ≡ R.sismember s (fwd_key key_prefix skh list ver) y

  -- The token is taken away, and the forward set is still there.
  abbrev Taken : Text → ℕ → R.State → R.State → Type 0
  Taken ver token s t = Same ver s t × Unindexed token t

  take_now :
      (state : ListSyncState) (token : ℕ) (s : R.State)
      → Mirrors R key_prefix skh list state.version token s
      → Outcome
          (λ e t. Same state.version s t)
          (λ u t. Taken state.version token s t)
          (take_token R key_prefix skh list config state token s)
  unfolding take_token
  take_now state token s m =
      let ver = state.version in
      then_with-Outcome (λ e t. Same ver s t) (λ u t. t ≡ s) (λ u t. Taken ver token s t)
        (ask_missing R key_prefix skh list config state s) _
        (asked (ltb 0 (unwrap_or state.cardinality state.size)))
        (λ u t e. rw e (elim (Bool-cases (incomplete R key_prefix skh list config state s)) [
          | inl i ↦ rw i (clear_reverse_token-Outcome R L key_prefix skh list ver config token s)
          | inr i ↦ rw i (
              then_with-Outcome (λ e t. Same ver s t) (λ u t. t ≡ s) (λ u t. Taken ver token s t)
                (ask R s) _ (asked true)
                (λ v z k. rw k (
                  Outcome-weaken _ (λ x t. Same ver s t) _ (λ u t. Taken ver token s t) _
                    (λ x t h. h) (λ u t h. (h.0, λ x. h.1 x ∙ taken (R.sismember s _ x) _ (m.at x)))
                    (fanout_scan-Outcome R L key_prefix skh list ver config token false _ s))))
        ]))
    where
      taken : (b c : Bool) → c ≡ b → (if b then false else c) ≡ false
      taken true c h = refl
      taken false c h = h

      asked :
          (b : Bool)
          → Outcome
              (λ e t. Same state.version s t)
              (λ u t. t ≡ s)
              (if b then ask R s else (inr tt, s))
      asked true =
          Outcome-weaken _ (λ e t. Same state.version s t) _ (λ u t. t ≡ s) _
            (λ e t h. rw h (λ y. refl)) (λ u t h. h) (ask-Outcome R s)
      asked false = refl

  remove_token-Outcome :
      (state : ListSyncState) (token : ℕ) (s : R.State)
      → config.enable_reverse_index ≡ true
      → Mirrors R key_prefix skh list state.version token s
      → Outcome
          (λ e t. Same state.version s t)
          (λ u t. Taken state.version token s t)
          (remove_token R key_prefix skh list config state false (some token) s)
  unfolding remove_token
  remove_token-Outcome state token s on m =
      if_on (Outcome (λ e t. Same state.version s t) (λ u t. Taken state.version token s t))
        config.enable_reverse_index (take_token R key_prefix skh list config state token s)
        (inr tt, s) on (take_now state token s m)

  Unindexed-query :
      (token : ℕ) (t : R.State) (cs : List Command)
      → ((j x : Text) → member_after_all j x cs false ≡ false)
      → Unindexed token t
      → Unindexed token (query R t cs)
  Unindexed-query token t cs keep h x =
      sismember-query R L t cs (member x) (to_string token)
      ∙ (ap (member_after_all (member x) (to_string token) cs) (h x)
          ∙ keep (member x) (to_string token))

  cleanup-Gone :
      (state : ListSyncState) (token : ℕ) (t : R.State)
      → Unindexed token t
      → Gone token state.version (query R t (cleanup state (some token)))
  cleanup-Gone state token t h = record {
    indexed =
        Unindexed-query token t (cleanup state (some token))
          (λ j x.
            Takes-all key_prefix skh list (cleanup state (some token)) j x
              (cleanup-Takes key_prefix skh list state (some token)))
          h;
    forward = λ y.
        sismember-query R L t _ _ y ∙ cleanup-forward key_prefix skh list state (some token) y _;
    registered =
        sismember-query R L t _ _ list
        ∙ cleanup-registered key_prefix skh list state (some token) _;
    fields =
        λ f. hgetall-query R L t _ _ f ∙ cleanup-fields key_prefix skh list state (some token) f _;
  }

  -- How a removal may end with an error: the forward set is still there, or no member is indexed, and
  -- the state has the mark that the fan-out is complete, or is gone.
  abbrev pub Resumable : Text → ℕ → R.State → R.State → Type 0
  Resumable ver token s t =
      ((y : Text)
        → R.sismember t (fwd_key key_prefix skh list ver) y
          ≡ R.sismember s (fwd_key key_prefix skh list ver) y)
      ⊎ (((x : Text) → R.sismember t (member_key key_prefix skh x) (to_string token) ≡ false)
          × ((get removal_fanout_complete_field (R.hgetall t (state_key key_prefix skh list))
                ≡ some one)
              ⊎ ((f : Text) → get f (R.hgetall t (state_key key_prefix skh list)) ≡ none)))

  -- The state with the mark, before the cleanup.
  record Ready (ver : Text) (token : ℕ) (s t : R.State) : Type 0 where
    pub same : Same ver s t
    pub unindexed : Unindexed token t
    pub mark :
        get removal_fanout_complete_field (R.hgetall t (state_key key_prefix skh list)) ≡ some one

  abbrev mark_command : Command
  mark_command =
      hash_set (state_key key_prefix skh list) ((removal_fanout_complete_field, one) ∷ [])

  marked-Ready :
      (ver : Text) (token : ℕ) (s t : R.State)
      → Taken ver token s t
      → Ready ver token s (R.perform t mark_command)
  marked-Ready ver token s t h = record {
    same = λ y. L.sismember-perform t mark_command _ y ∙ h.0 y;
    unindexed = λ x. L.sismember-perform t mark_command _ _ ∙ h.1 x;
    mark =
        L.hgetall-perform t mark_command _ removal_fanout_complete_field
        ∙ rw (text_beq_refl (state_key key_prefix skh list)) refl;
  }

  mark_complete-Outcome :
      (ver : Text) (token : ℕ) (s t : R.State)
      → Taken ver token s t
      → Outcome
          (λ e u. Resumable ver token s u)
          (λ z u. Ready ver token s u)
          (mark_complete R key_prefix skh list config false t)
  unfolding mark_complete query
  mark_complete-Outcome ver token s t h =
      then_with-Outcome (λ e u. Resumable ver token s u) (λ z u. u ≡ t) (λ z u. Ready ver token s u)
        (ask R t) _
        (Outcome-weaken _ (λ e u. Resumable ver token s u) _ (λ z u. u ≡ t) _
          (λ e u k. rw k (inl h.0)) (λ z u k. k) (ask-Outcome R t))
        (λ z u k. rw k (
          Outcome-weaken _ (λ e u. Resumable ver token s u) _ (λ z u. Ready ver token s u) _
            (λ e w i. cut_at w i.0 i.1) (λ v w i. rw i (marked-Ready ver token s t h))
            (send-Outcome R (mark_command ∷ []) t)))
    where
      cut_at :
          (u : R.State) (n : ℕ)
          → u ≡ query R t (first n (mark_command ∷ []))
          → Resumable ver token s u
      cut_at u zero e = rw e (inl h.0)
      cut_at u (suc zero) e = rw e (inl (marked-Ready ver token s t h).same)
      cut_at u (suc (suc n)) e = rw e (inl (marked-Ready ver token s t h).same)

  cleanup-Outcome :
      (state : ListSyncState) (token : ℕ) (s t : R.State)
      → Ready state.version token s t
      → Outcome
          (λ e u. Resumable state.version token s u)
          (λ z u. Gone token state.version u)
          (send R (cleanup state (some token)) t)
  cleanup-Outcome state token s t h =
      let cs = cleanup state (some token) in
      Outcome-weaken _ (λ e u. Resumable state.version token s u) _
        (λ z u. Gone token state.version u) _
        (λ e u k. rw k.1 (
          inr (
            Unindexed-query token t (first k.0 cs)
                (λ j x. Takes-all key_prefix skh list (first k.0 cs) j x (
                  All-first (Takes key_prefix skh list) k.0 cs
                    (cleanup-Takes key_prefix skh list state (some token))))
                h.unindexed,
            elim (Keeps-all key_prefix skh list (first k.0 cs)
                (λ f. get f (R.hgetall t (state_key key_prefix skh list)))
                (All-first (Keeps key_prefix skh list) k.0 cs
                  (cleanup-Keeps key_prefix skh list state (some token)))
                (inl h.mark)) [
                  | inl i ↦ inl (hgetall-query R L t (first k.0 cs) _ _ ∙ i)
                  | inr i ↦ inr (λ f. hgetall-query R L t (first k.0 cs) _ f ∙ i f)
                ],
          )))
        (λ z u k. rw k (cleanup-Gone state token t h.unindexed)) (send-Outcome R cs t)

  -- The removal once the token is known.
  known-Outcome :
      (state : ListSyncState) (token : ℕ) (s : R.State)
      → config.enable_reverse_index ≡ true
      → Mirrors R key_prefix skh list state.version token s
      → Outcome
          (λ e t. Resumable state.version token s t)
          (λ u t. Gone token state.version t)
          (then_with (remove_token R key_prefix skh list config state false (some token) s) (λ _ t.
            then_with
              (mark_complete R key_prefix skh list config false t)
              (λ _ w. then_with (ask R w) (λ _. send R (cleanup state (some token))))))
  known-Outcome state token s on m =
      let E : R.State → Type 0 = Resumable state.version token s in
      let G : R.State → Type 0 = Gone token state.version in
      then_with-Outcome (λ e t. E t) (λ u t. Taken state.version token s t) (λ u t. G t)
        (remove_token R key_prefix skh list config state false (some token) s) _
        (Outcome-weaken _ (λ e t. E t) _ (λ u t. Taken state.version token s t) _ (λ e t h. inl h)
          (λ u t h. h) (remove_token-Outcome state token s on m))
        (λ u t h.
          then_with-Outcome (λ e w. E w) (λ z w. Ready state.version token s w) (λ z w. G w)
            (mark_complete R key_prefix skh list config false t) _
            (mark_complete-Outcome state.version token s t h)
            (λ z w r.
              then_with-Outcome (λ e y. E y) (λ z y. y ≡ w) (λ z y. G y) (ask R w) _
                (Outcome-weaken _ (λ e y. E y) _ (λ z y. y ≡ w) _ (λ e y i. rw i (inl r.same))
                  (λ z y i. i) (ask-Outcome R w))
                (λ z y i. rw i (cleanup-Outcome state token s w r))))

  looked_up :
      (token : ℕ) (s : R.State) (P : (WorkerError ⊎ Option ℕ) × R.State → Type 0)
      → get_token (R.hgetall s (dict_key key_prefix skh)) list ≡ some (some token)
      → P (inr (some token), s)
      → P (lookup R key_prefix skh list config s)
  unfolding lookup
  looked_up token s P known p = rw (lookup, known) p

  -- The removal of a list whose token the dictionary has and whose fan-out is not done yet, with the
  -- reverse index enabled and a mirror of the forward set. If no error ends it, no member is indexed
  -- under the token, and the forward set, the entry among all the lists and the state of the list
  -- are gone. If an error ends it, also of Redis within the last pipeline, then the forward set is
  -- as it was, or no member is indexed under the token and the state either has the mark that the
  -- fan-out is complete, for a later worker, or is gone.
  pub apply_remove-Gone :
      (state : ListSyncState) (token : ℕ) (s : R.State)
      → config.enable_reverse_index ≡ true
      → get removal_fanout_complete_field (R.hgetall s (state_key key_prefix skh list)) ≡ none
      → get_token (R.hgetall s (dict_key key_prefix skh)) list ≡ some (some token)
      → Mirrors R key_prefix skh list state.version token s
      → Outcome
          (λ e t. Resumable state.version token s t)
          (λ u t. Gone token state.version t)
          (apply_remove R key_prefix skh list config state s)
  unfolding apply_remove
  apply_remove-Gone state token s on fresh known m =
      let E : R.State → Type 0 = Resumable state.version token s in
      let G : R.State → Type 0 = Gone token state.version in
      let later : (WorkerError ⊎ Option ℕ) × R.State → (WorkerError ⊎ Unit {0}) × R.State = λ r.
        then_with r (λ token t.
          then_with (remove_token R key_prefix skh list config state false token t) (λ _ v.
            then_with (mark_complete R key_prefix skh list config false v)
              (λ _ w. then_with (ask R w) (λ _. send R (cleanup state token))))) in
      rw (apply_remove, fresh)
        (then_with-Outcome (λ e t. E t) (λ u t. t ≡ s) (λ u t. G t) (ask R s) _
          (Outcome-weaken _ (λ e t. E t) _ (λ u t. t ≡ s) _ (λ e t k. rw k (inl (λ y. refl)))
            (λ u t k. k) (ask-Outcome R s))
          (λ u t k.
            subst
              (λ z.
                Outcome (λ e t. E t) (λ u t. G t) (later (lookup R key_prefix skh list config z)))
              (sym k)
              (looked_up token s (λ r. Outcome (λ e t. E t) (λ u t. G t) (later r)) known
                (known-Outcome state token s on m))))
