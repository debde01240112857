-- ===== src/IdList/Worker/Removal/Cleanup.antt =====
-- What the commands of the last pipeline of a removal do, all of them and any prefix of them.
use mathlib.Core.Logic.{inl, inr}
use statsig_forward_proxy.Prelude.{
  ℕ, ◌⊎◌, ◌&&◌, text_beq, All, [], ◌∷◌, ◌≡◌, ◌∙◌, refl, ap, Bool, true, false, Option, none, some,
  List, arith, Text, text_eq, text_beq_refl, Bool-cases, if◌then◌else◌,
}
use statsig_forward_proxy.IdList.Schema.State.{ListSyncState, removal_fanout_complete_field}
use statsig_forward_proxy.IdList.Schema.Keys.{fwd_key, state_key, all_lists_key}
use statsig_forward_proxy.IdList.Schema.Tokens.{name_field}
use statsig_forward_proxy.IdList.Worker.Redis.{
  Command, unlink, hash_delete, listed, member_after, member_after_all, field_after,
  field_after_all,
}
use statsig_forward_proxy.IdList.Worker.Apply.Batches.{member_after-append}
use statsig_forward_proxy.IdList.Worker.Commit.{one}
use statsig_forward_proxy.IdList.Worker.Removal.{token_fields, pending_set, cleanup_commands}

module _ (key_prefix skh list : Text) where
  abbrev pub cleanup : ListSyncState → Option ℕ → List Command
  cleanup = cleanup_commands key_prefix skh list

  -- The command only takes members away.
  abbrev pub Takes : Command → Type 0
  Takes c = (j x : Text) → member_after j x c false ≡ false

  pub Takes-all :
      (cs : List Command) (j x : Text) → All Takes cs → member_after_all j x cs false ≡ false
  Takes-all [] j x h = refl
  Takes-all (c ∷ cs) j x h = ap (member_after_all j x cs) (h.0 j x) ∙ Takes-all cs j x h.1

  unlink-Takes : (k : Text) → Takes (unlink k)
  unlink-Takes k j x = ground arith

  pub cleanup-Takes : (state : ListSyncState) (token : Option ℕ) → All Takes (cleanup state token)
  unfolding cleanup_commands
  cleanup-Takes state token = go state.loading_version
    where
      rest : All Takes (cleanup (record state { loading_version = none }) token)
      rest = (
        unlink-Takes _,
        (unlink-Takes _, ((λ j x. refl), ((λ j x. ground arith), (unlink-Takes _, tt)))),
      )

      go :
          (version : Option Text)
          → All Takes (cleanup (record state { loading_version = version }) token)
      go none = rest
      go (some v) = (unlink-Takes _, rest)

  -- The state still has the mark that the fan-out is complete, or is gone.
  abbrev pub Marked : (Text → Option Text) → Type 0
  Marked fields = (fields removal_fanout_complete_field ≡ some one) ⊎ ((f : Text) → fields f ≡ none)

  abbrev pub Keeps : Command → Type 0
  Keeps c =
      (fields : Text → Option Text)
      → Marked fields
      → Marked (λ f. field_after (state_key key_prefix skh list) f c (fields f))

  unlink-Keeps : (k : Text) → Keeps (unlink k)
  unlink-Keeps k fields h = elim (Bool-cases (text_beq k (state_key key_prefix skh list))) [
    | inl e ↦ rw e (inr (λ f. refl))
    | inr e ↦ rw e h
  ]

  delete-Keeps :
      (k : Text) (token : Option ℕ) → Keeps (hash_delete k (name_field list ∷ token_fields token))
  delete-Keeps k token fields (inr h) =
      inr (λ f. nothing_left (text_beq k (state_key key_prefix skh list) && _) (fields f) (h f))
    where
      nothing_left : (b : Bool) (o : Option Text) → o ≡ none → (if b then none else o) ≡ none
      nothing_left true o e = refl
      nothing_left false o e = e
  delete-Keeps k token fields (inl h) =
      inl (still (text_beq k (state_key key_prefix skh list)) token)
    where
      still :
          (b : Bool) (t : Option ℕ)
          → (if b && listed removal_fanout_complete_field (name_field list ∷ token_fields t)
              then none
              else fields removal_fanout_complete_field)
            ≡ some one
      still true none = h
      still true (some n) = h
      still false t = h

  pub cleanup-Keeps : (state : ListSyncState) (token : Option ℕ) → All Keeps (cleanup state token)
  unfolding cleanup_commands
  cleanup-Keeps state token = go state.loading_version
    where
      rest : All Keeps (cleanup (record state { loading_version = none }) token)
      rest = (
        unlink-Keeps _,
        (unlink-Keeps _, (delete-Keeps _ token, ((λ fields h. h), (unlink-Keeps _, tt)))),
      )

      go :
          (version : Option Text)
          → All Keeps (cleanup (record state { loading_version = version }) token)
      go none = rest
      go (some v) = (unlink-Keeps _, rest)

  pub Keeps-all :
      (cs : List Command) (fields : Text → Option Text)
      → All Keeps cs
      → Marked fields
      → Marked (λ f. field_after_all (state_key key_prefix skh list) f cs (fields f))
  Keeps-all [] fields h m = m
  Keeps-all (c ∷ cs) fields h m = Keeps-all cs _ h.1 (h.0 fields m)

  pub cleanup-forward :
      (state : ListSyncState) (token : Option ℕ) (y : Text) (old : Bool)
      → member_after_all (fwd_key key_prefix skh list state.version) y (cleanup state token) old
        ≡ false
  unfolding cleanup_commands
  cleanup-forward state token y old =
      member_after-append _ y (pending_set key_prefix skh list state.loading_version) _ old
      ∙ rw (text_beq_refl (fwd_key key_prefix skh list state.version)) (ground arith)

  pub cleanup-registered :
      (state : ListSyncState) (token : Option ℕ) (old : Bool)
      → member_after_all (all_lists_key key_prefix skh) list (cleanup state token) old ≡ false
  unfolding cleanup_commands
  cleanup-registered state token old =
      member_after-append _ list (pending_set key_prefix skh list state.loading_version) _ old
      ∙ rw (text_beq_refl (all_lists_key key_prefix skh), text_beq_refl list) (ground arith)

  pub cleanup-fields :
      (state : ListSyncState) (token : Option ℕ) (f : Text) (old : Option Text)
      → field_after_all (state_key key_prefix skh list) f (cleanup state token) old ≡ none
  unfolding cleanup_commands
  cleanup-fields state token f old = go state.loading_version
    where
      go :
          (version : Option Text)
          → field_after_all
              (state_key key_prefix skh list)
              f
              (cleanup (record state { loading_version = version }) token)
              old
            ≡ none
      go none = rw (text_beq_refl (state_key key_prefix skh list)) refl
      go (some v) = rw (text_beq_refl (state_key key_prefix skh list)) refl
