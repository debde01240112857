-- ===== src/IdList/Worker/Reload/Publish.antt =====
-- What `commit_reload` leaves of the state of a list, and that the planner is then content.
use mathlib.Core.Logic.{inl, inr}
use statsig_forward_proxy.Prelude.{
  ℕ, ◌≡◌, ◌≤◌, ◌∙◌, refl, ap, Bool, true, false, not, ◌&&◌, Option, none, some, List, [], ◌∷◌, ◌++◌,
  arith, Text, get, contains_key, text_eq, text_beq, text_beq_refl, is_empty, ltb, to_string,
  is_empty-to_string, parse_u64-to_string, u64_max, Bool-cases, if◌then◌else◌,
}
use statsig_forward_proxy.IdList.Schema.State.{
  IdListMetadata, ListSyncState, from_hash_fields, version_field, file_id_field,
  creation_time_field, size_field, cardinality_field, loading_version_field,
  reverse_index_disabled_field,
}
use statsig_forward_proxy.IdList.Schema.Keys.{fwd_key, state_key, all_lists_key, version_tag}
use statsig_forward_proxy.IdList.Schema.Codec.{NoColon}
use statsig_forward_proxy.IdList.Schema.Apart.{all_lists_key-fwd_key}
use statsig_forward_proxy.IdList.Planning.Decide.{SyncAction, plan_sync_with_reverse_index}
use statsig_forward_proxy.IdList.Planning.Laws.{IsApplied, plan_sync-converges}
use statsig_forward_proxy.IdList.Worker.Redis.{
  Command, hash_delete, persist, member_after_all, field_after_all, Redis, IsRedis, sismember-query,
  hgetall-query,
}
use statsig_forward_proxy.IdList.Worker.Config.{WorkerConfig}
use statsig_forward_proxy.IdList.Worker.Commit.{
  when_list, expire_old, publish_commands, commit_reload,
}

version_tag-nonempty : (meta : IdListMetadata) → is_empty (version_tag meta) ≡ false
unfolding version_tag
version_tag-nonempty meta = elim (Bool-cases (is_empty meta.file_id)) [
  | inl e ↦ rw (version_tag, e) (is_empty-to_string meta.creation_time)
  | inr e ↦ rw (version_tag, e) (longer meta.file_id _ e)
]
  where
    longer : (a b : Text) → is_empty a ≡ false → is_empty (a ++ b) ≡ false
    longer [] b h = cc
    longer (c ∷ a) b h = refl

-- The commands behind the pipeline that publishes.
abbrev tail : Bool → ℕ → Text → Text → Option Text → List Command
tail rev ttl key new_key old_key =
    when_list rev (hash_delete key (reverse_index_disabled_field ∷ []) ∷ [])
    ++ (persist new_key ∷ expire_old ttl new_key old_key)

expire_old-field :
    (key f new_key : Text) (ttl : ℕ) (old_key : Option Text) (o : Option Text)
    → field_after_all key f (expire_old ttl new_key old_key) o ≡ o
expire_old-field key f new_key ttl none o = refl
expire_old-field key f new_key ttl (some old) o = ground arith

and_false : (b : Bool) → b && false ≡ false
and_false true = refl
and_false false = refl

by_test :
    (b : Bool) (o : Option Text)
    → (if true && (if b then true else false) then none else o) ≡ (if true && b then none else o)
by_test true o = refl
by_test false o = refl

tail-field :
    (rev : Bool) (ttl : ℕ) (key f new_key : Text) (old_key : Option Text) (o : Option Text)
    → field_after_all key f (tail rev ttl key new_key old_key) o
      ≡ (if rev && text_beq reverse_index_disabled_field f then none else o)
tail-field true ttl key f new_key old_key o =
    expire_old-field key f new_key ttl old_key _
    ∙ rw (text_beq_refl key) (by_test (text_beq reverse_index_disabled_field f) o)
tail-field false ttl key f new_key old_key o = expire_old-field key f new_key ttl old_key o

expire_old-member :
    (j x new_key : Text) (ttl : ℕ) (old_key : Option Text) (o : Bool)
    → member_after_all j x (expire_old ttl new_key old_key) o ≡ o
expire_old-member j x new_key ttl none o = refl
expire_old-member j x new_key ttl (some old) o = ground arith

tail-member :
    (rev : Bool) (ttl : ℕ) (key j x new_key : Text) (old_key : Option Text) (o : Bool)
    → member_after_all j x (tail rev ttl key new_key old_key) o ≡ o
tail-member true ttl key j x new_key old_key o = expire_old-member j x new_key ttl old_key o
tail-member false ttl key j x new_key old_key o = expire_old-member j x new_key ttl old_key o

module _ (R : Redis) (L : IsRedis R) (key_prefix skh list : Text) (config : WorkerConfig)
    (meta : IdListMetadata) (old_key : Option Text) where
  abbrev key : Text
  key = state_key key_prefix skh list

  abbrev new_key : Text
  new_key = fwd_key key_prefix skh list (version_tag meta)

  abbrev after : R.State → R.State
  after = commit_reload R key_prefix skh list config new_key old_key meta

  published-field :
      (s : R.State) (f : Text)
      → get f (R.hgetall (after s) key) ≡ (
          if config.enable_reverse_index && text_beq reverse_index_disabled_field f
          then none
          else field_after_all key f
              (publish_commands key (all_lists_key key_prefix skh) list (R.scard s new_key) meta)
              (get f (R.hgetall s key)))
  unfolding commit_reload
  published-field s f =
      hgetall-query R L _
        (tail config.enable_reverse_index config.old_version_ttl_s key new_key old_key) key f
      ∙ (tail-field config.enable_reverse_index config.old_version_ttl_s key f new_key old_key _
          ∙ ap
              (λ o.
                if config.enable_reverse_index && text_beq reverse_index_disabled_field f
                then none
                else o)
              (hgetall-query R L s _ key f))

  published-member :
      (s : R.State) (x : Text)
      → NoColon skh
      → R.sismember (after s) new_key x ≡ R.sismember s new_key x
  unfolding commit_reload publish_commands
  published-member s x colon =
      sismember-query R L _
        (tail config.enable_reverse_index config.old_version_ttl_s key new_key old_key) new_key x
      ∙ (tail-member config.enable_reverse_index config.old_version_ttl_s key new_key x new_key
            old_key _
          ∙ (sismember-query R L s _ new_key x
              ∙ rw (all_lists_key-fwd_key key_prefix skh list (version_tag meta) colon) refl))

  -- A field that the pipeline writes or deletes.
  field_of :
      (s : R.State) (f : Text) (v : Option Text)
      → text_beq reverse_index_disabled_field f ≡ false
      → field_after_all key f
          (publish_commands key (all_lists_key key_prefix skh) list (R.scard s new_key) meta)
          (get f (R.hgetall s key))
        ≡ v
      → get f (R.hgetall (after s) key) ≡ v
  field_of s f v e h = published-field s f ∙ (rw (e, and_false config.enable_reverse_index) h)

  scard-after : (s : R.State) → NoColon skh → R.scard (after s) new_key ≡ R.scard s new_key
  scard-after s colon = L.scard_congr (after s) s new_key new_key (λ x. published-member s x colon)

  exists-after :
      (s : R.State)
      → NoColon skh
      → ltb 0 (R.scard s new_key) && not (R.exists (after s) new_key) ≡ false
  exists-after s colon = elim (Bool-cases (ltb 0 (R.scard s new_key))) [
    | inl e ↦
        rw (L.exists_scard (after s) new_key (ground (arith, scard-after s colon)))
          (and_false (ltb 0 (R.scard s new_key)))
    | inr e ↦ rw e refl
  ]

  indexed-after :
      (s : R.State)
      → config.enable_reverse_index
          && contains_key reverse_index_disabled_field (R.hgetall (after s) key)
        ≡ false
  indexed-after s = elim (Bool-cases config.enable_reverse_index) [
    | inl e ↦ rw (published-field s reverse_index_disabled_field, e) refl
    | inr e ↦ rw e refl
  ]

  -- The published state, as it is read back, is that of a list to which all of `meta` is applied.
  commit-IsApplied :
      (s : R.State)
      → NoColon skh
      → meta.creation_time ≤ u64_max
      → meta.size ≤ u64_max
      → R.scard s new_key ≤ u64_max
      → IsApplied meta config.enable_reverse_index
          (R.exists (after s) new_key)
          (from_hash_fields (R.hgetall (after s) key))
  unfolding from_hash_fields publish_commands
  commit-IsApplied s colon time size card = record {
    version =
        rw (field_of s version_field (some (version_tag meta)) refl (rw (text_beq_refl key) refl))
          (version_tag-nonempty meta);
    file_id =
        rw (field_of s file_id_field (some meta.file_id) refl (rw (text_beq_refl key) refl)) refl;
    creation_time =
        rw
          (field_of s creation_time_field (some (to_string meta.creation_time)) refl
            (rw (text_beq_refl key) refl))
          (rw (parse_u64-to_string meta.creation_time time) refl);
    size =
        rw (field_of s size_field (some (to_string meta.size)) refl (rw (text_beq_refl key) refl))
          (rw (parse_u64-to_string meta.size size) refl);
    loaded = field_of s loading_version_field none refl (rw (text_beq_refl key) refl);
    indexed = indexed-after s;
    forward =
        rw
          (field_of s cardinality_field (some (to_string (R.scard s new_key))) refl
            (rw (text_beq_refl key) refl))
          (rw (parse_u64-to_string (R.scard s new_key) card) (exists-after s colon));
  }

  -- A load converges: if the planner asks for work whose target is `meta`, then once the worker has
  -- published `meta`, the planner reads back a state for which the same manifest entry asks for no
  -- more work. The numbers have to fit in 64 bits, and the namespace has no colon.
  pub commit_reload-converges :
      (s : R.State) (stored : Option ListSyncState) (entry : IdListMetadata) (forward_exists : Bool)
      (action : SyncAction)
      → NoColon skh
      → meta.creation_time ≤ u64_max
      → meta.size ≤ u64_max
      → R.scard s new_key ≤ u64_max
      → plan_sync_with_reverse_index stored entry forward_exists config.enable_reverse_index
        ≡ some (action, meta)
      → plan_sync_with_reverse_index
          (some (
            from_hash_fields (
              R.hgetall
                (commit_reload R key_prefix skh list config
                  (fwd_key key_prefix skh list (version_tag meta))
                  old_key
                  meta
                  s)
                (state_key key_prefix skh list))))
          entry
          (R.exists
            (commit_reload R key_prefix skh list config
              (fwd_key key_prefix skh list (version_tag meta))
              old_key
              meta
              s)
            (fwd_key key_prefix skh list (version_tag meta)))
          config.enable_reverse_index
        ≡ none
  commit_reload-converges s stored entry forward_exists action colon time size card planned =
      plan_sync-converges stored entry forward_exists _ config.enable_reverse_index action meta _
        planned (commit-IsApplied s colon time size card)
