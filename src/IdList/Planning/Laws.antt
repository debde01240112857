-- ===== src/IdList/Planning/Laws.antt =====
-- What the plan for one list may be, and that a list whose work is done needs none.
use mathlib.Core.Option
use mathlib.Core.Logic.{inl, inr}
use statsig_forward_proxy.Prelude.{
  subst, ℕ, ◌+◌, ◌≡◌, ◌≢◌, ◌≤◌, ◌<◌, ◌∙◌, ◌⊎◌, refl, sym, ap, Bool, false, not, ◌&&◌, Option, none,
  some, arith, text_beq, text_beq_refl, text_beq_sound, is_empty, ltb, unwrap_or, Bool-cases,
}
use statsig_forward_proxy.IdList.Schema.State.{IdListMetadata, ListSyncState}
use statsig_forward_proxy.IdList.Planning.Decide.{
  SyncAction, full_load, delta, remove, needs_work_from, needs_work_with_reverse_index, sync_target,
  plan_sync_with_reverse_index,
}

-- Work on `target` that a list with a committed version may get: all of the committed file again or
-- of one created later, or an append on the committed file, for the bytes that are new.
abbrev pub Justified : ListSyncState → SyncAction → IdListMetadata → Type 0
Justified s a target =
    (a ≡ full_load) × ((target.file_id ≡ s.file_id) ⊎ (s.creation_time < target.creation_time))
    ⊎ (lag : ℕ) × (a ≡ delta lag)
      × (target.file_id ≡ s.file_id)
      × (0 < lag)
      × (s.size + lag ≡ target.size)

work-Justified :
    (s : ListSyncState) (meta : IdListMetadata) (fwd rev : Bool) (a : SyncAction)
    → is_empty s.version ≡ false
    → needs_work_from s meta fwd rev ≡ some a
    → Justified s a meta
unfolding needs_work_from
work-Justified s meta fwd rev full_load v h = elim (Bool-cases (text_beq meta.file_id s.file_id)) [
  | inl e ↦ inl (refl, inl (text_beq_sound meta.file_id s.file_id e))
  | inr e ↦ inl (refl, inr (ground arith))
]
work-Justified s meta fwd rev (delta lag) v h =
    inr
      (lag, refl, ground (arith, text_beq_sound meta.file_id s.file_id), ground arith, ground arith)
work-Justified s meta fwd rev remove v h = ground arith

paired :
    (o : Option SyncAction) (t target : IdListMetadata) (a : SyncAction)
    → Option.map {B = SyncAction × IdListMetadata} (λ b. (b, t)) o ≡ some (a, target)
    → (o ≡ some a) × (target ≡ t)
paired none t target a h = cc
paired (some b) t target a h = (cc, cc)

plan-work :
    (o : Option ListSyncState) (meta : IdListMetadata) (fwd rev : Bool) (a : SyncAction)
    (target : IdListMetadata)
    → plan_sync_with_reverse_index o meta fwd rev ≡ some (a, target)
    → (needs_work_with_reverse_index o target fwd rev ≡ some a) × (target ≡ sync_target o meta rev)
unfolding plan_sync_with_reverse_index
plan-work o meta fwd rev a target h =
    let (work, there) =
      paired (needs_work_with_reverse_index o (sync_target o meta rev) fwd rev)
        (sync_target o meta rev) target a h in
    (subst (λ t. needs_work_with_reverse_index o t fwd rev ≡ some a) (sym there) work, there)

-- With a committed version, the planned work never rolls the list back: a full load is of the
-- committed file or of one created later, an append is on the committed file, for exactly the
-- bytes beyond its size and at least one, and a removal is never planned here.
pub plan_sync-Justified :
    (s : ListSyncState) (meta : IdListMetadata) (fwd rev : Bool) (a : SyncAction)
    (target : IdListMetadata)
    → is_empty s.version ≡ false
    → plan_sync_with_reverse_index (some s) meta fwd rev ≡ some (a, target)
    → Justified s a target
unfolding needs_work_with_reverse_index
plan_sync-Justified s meta fwd rev a target v h =
    work-Justified s target fwd rev a v (plan-work (some s) meta fwd rev a target h).0

-- The state that a worker leaves when it has applied all of `target`, the forward set with it.
pub record IsApplied (target : IdListMetadata) (rev fwd : Bool) (s : ListSyncState) : Type 0 where
  pub version : is_empty s.version ≡ false
  pub file_id : s.file_id ≡ target.file_id
  pub creation_time : s.creation_time ≡ target.creation_time
  pub size : s.size ≡ target.size
  pub loaded : s.loading_version ≡ none
  pub indexed : (rev && s.reverse_index_disabled) ≡ false
  pub forward : (ltb 0 (unwrap_or s.cardinality s.size) && not fwd) ≡ false

target-cases :
    (o : Option ListSyncState) (meta : IdListMetadata) (rev : Bool)
    → (sync_target o meta rev ≡ meta)
      ⊎ ((sync_target o meta rev).file_id ≢ meta.file_id)
        × (meta.creation_time ≤ (sync_target o meta rev).creation_time)
unfolding sync_target
target-cases none meta rev = inl refl
target-cases (some s) meta rev = ground (arith, text_beq_refl meta.file_id)

applied_target :
    (meta : IdListMetadata) (s : ListSyncState) (fwd rev : Bool)
    → (rev && s.reverse_index_disabled) ≡ false
    → sync_target (some s) meta rev ≡ meta
unfolding sync_target
applied_target meta s fwd rev h = ground arith

applied_none :
    (meta : IdListMetadata) (s : ListSyncState) (fwd rev : Bool)
    → IsApplied meta rev fwd s
    → needs_work_from s meta fwd rev ≡ none
unfolding needs_work_from
applied_none meta s fwd rev h = ground (
  arith,
  h.version,
  h.file_id,
  h.size,
  h.loaded,
  h.indexed,
  h.forward,
  text_beq_refl meta.file_id,
)

older_none :
    (meta : IdListMetadata) (s : ListSyncState) (fwd rev : Bool)
    → is_empty s.version ≡ false
    → s.file_id ≢ meta.file_id
    → meta.creation_time ≤ s.creation_time
    → needs_work_from s meta fwd rev ≡ none
unfolding needs_work_from
older_none meta s fwd rev v ne old = ground (arith, text_beq_sound meta.file_id s.file_id)

-- The plan converges: once a worker has applied all of the planned target, the same manifest entry
-- plans no more work for the list, whether the target was the manifest's file or the committed one.
pub plan_sync-converges :
    (o : Option ListSyncState) (meta : IdListMetadata) (fwd fwd' rev : Bool) (a : SyncAction)
    (target : IdListMetadata) (s' : ListSyncState)
    → plan_sync_with_reverse_index o meta fwd rev ≡ some (a, target)
    → IsApplied target rev fwd' s'
    → plan_sync_with_reverse_index (some s') meta fwd' rev ≡ none
unfolding plan_sync_with_reverse_index needs_work_with_reverse_index
plan_sync-converges o meta fwd fwd' rev a target s' h d =
    let there = (plan-work o meta fwd rev a target h).1 in
    let quiet : needs_work_from s' meta fwd' rev ≡ none = elim (target-cases o meta rev) [
      | inl e ↦ applied_none meta s' fwd' rev (subst (λ t. IsApplied t rev fwd' s') (there ∙ e) d)
      | inr (ne, old) ↦
          older_none meta s' fwd' rev d.version
            (λ e. ne (ap (λ t. t.file_id) (sym there) ∙ (sym d.file_id ∙ e)))
            (ground (arith, d.creation_time, ap (λ t. t.creation_time) there))
    ] in
    rw (applied_target meta s' fwd' rev d.indexed, quiet) refl
