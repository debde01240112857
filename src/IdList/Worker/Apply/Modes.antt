-- ===== src/IdList/Worker/Apply/Modes.antt =====
-- The two modes of `apply_file_batch`: what a batch does to the sets and the checkpoint of each.
use mathlib.Core.Logic.{inl, inr}
use statsig_forward_proxy.Prelude.{
  ℕ, ◌≡◌, ◌∙◌, refl, sym, subst, Bool, true, false, ◌&&◌, ◌++◌, Text, get, text_eq, text_beq_refl,
  to_string, All, if◌then◌else◌,
}
use statsig_forward_proxy.IdList.Schema.State.{size_field, loading_size_field}
use statsig_forward_proxy.IdList.Schema.Keys.{member_key, fwd_key}
use statsig_forward_proxy.IdList.Worker.Redis.{Redis, IsRedis, query, sismember-query}
use statsig_forward_proxy.IdList.Worker.Send.{first, All-first, send-Outcome, send_atomic-Outcome}
use statsig_forward_proxy.IdList.Worker.Config.{WorkerConfig}
use statsig_forward_proxy.IdList.Worker.Step.{Outcome-weaken}
use statsig_forward_proxy.IdList.Worker.Apply.{
  delta, load, adds, delta_commands, batch_commands, checkpoint_command, pending_version_ttl_s,
}
use statsig_forward_proxy.IdList.Worker.Apply.Batches.{
  last_line, sismember-delta_forward, sismember-delta_member, sismember-load,
}
use statsig_forward_proxy.IdList.Worker.Apply.Cut.{delta_commands-Cut}
use statsig_forward_proxy.IdList.Worker.Apply.Stream.{View, Ahead, Follows}
use statsig_forward_proxy.IdList.Worker.Apply.Checkpoint.{
  Quiet, delta_commands-Quiet, load_commands-Quiet, hgetall-Quiet, Flushed, Flushed-Ahead,
  untouched-Ahead, Sends, Marks, apply_file_batch-Follows,
}

module _ (R : Redis) (key_prefix skh list ver state_key : Text) where
  -- The forward set of the version, the members whose sets hold the token, and the field `size`.
  abbrev pub delta_view : ℕ → View R.State
  delta_view token = record {
    members = λ s rev x.
        if rev
        then R.sismember s (member_key key_prefix skh x) (to_string token)
        else R.sismember s (fwd_key key_prefix skh list ver) x;
    checkpoint = λ s. get size_field (R.hgetall s state_key);
  }

  -- A load changes no member set.
  abbrev pub load_view : View R.State
  load_view = record {
    members = λ s rev x. R.sismember s (fwd_key key_prefix skh list ver) x;
    checkpoint = λ s. get loading_size_field (R.hgetall s state_key);
  }

module _ (R : Redis) (L : IsRedis R) (key_prefix skh list ver state_key : Text)
    (config : WorkerConfig) where
  abbrev fwd : Text
  fwd = fwd_key key_prefix skh list ver

  delta-Sends :
      (token : ℕ)
      → config.enable_reverse_index ≡ true
      → Sends R key_prefix skh config
          (delta token fwd state_key)
          (delta_view R key_prefix skh list ver state_key token)
  unfolding batch_commands
  delta-Sends token on changes first_batch s =
      let v = delta_view R key_prefix skh list ver state_key token in
      let cs = delta_commands key_prefix skh config token fwd changes in
      let quiet = delta_commands-Quiet key_prefix skh config token fwd changes on in
      Outcome-weaken _ (λ e t. Ahead v changes s t) _ (λ u t. Flushed v changes s t) _
        (λ e t k. subst (Ahead v changes s) (sym k.1) (cut_at k.0 quiet))
        (λ u t k. subst (Flushed v changes s) (sym k) (record {
          members = λ rev x. whole rev x;
          checkpoint = hgetall-Quiet R L s cs state_key size_field quiet;
        }))
        (send-Outcome R cs s)
    where
      whole :
          (rev : Bool) (x : Text)
          → (delta_view R key_prefix skh list ver state_key token).members
              (query R s (delta_commands key_prefix skh config token fwd changes))
              rev
              x
            ≡ last_line x changes
                ((delta_view R key_prefix skh list ver state_key token).members s rev x)
      whole true x = sismember-delta_member R L key_prefix skh list ver config token changes s x on
      whole false x = sismember-delta_forward R L key_prefix skh list ver config token changes s x

      cut_at :
          (n : ℕ)
          → All Quiet (delta_commands key_prefix skh config token fwd changes)
          → Ahead
              (delta_view R key_prefix skh list ver state_key token)
              changes
              s
              (query R s (first n (delta_commands key_prefix skh config token fwd changes)))
      cut_at n quiet =
          let c = delta_commands-Cut key_prefix skh list ver config token on n changes in
          let sent = first n (delta_commands key_prefix skh config token fwd changes) in
          record {
            ahead = λ rev. if rev then c.reverse else c.forward;
            later = λ rev. if rev then c.reverse_rest else c.forward_rest;
            begun = λ rev.
                elim rev
                  as (λ b.
                    changes
                    ≡ (if b then c.reverse else c.forward)
                      ++ (if b then c.reverse_rest else c.forward_rest)) [
                        | true ↦ c.reverse_split
                        | false ↦ c.forward_split
                      ];
            near = c.near;
            members = λ rev x.
                elim rev
                  as (λ b.
                    (delta_view R key_prefix skh list ver state_key token).members (query R s sent)
                      b x
                    ≡ last_line x (if b then c.reverse else c.forward)
                        ((delta_view R key_prefix skh list ver state_key token).members s b x)) [
                          | true ↦ sismember-query R L s sent _ _ ∙ c.member_set x _
                          | false ↦ sismember-query R L s sent _ _ ∙ c.forward_set x _
                        ];
            checkpoint = hgetall-Quiet R L s sent state_key size_field (All-first Quiet n _ quiet);
          }

  delta-Marks :
      (token : ℕ)
      → Marks R key_prefix skh config
          (delta token fwd state_key)
          (delta_view R key_prefix skh list ver state_key token)
  unfolding checkpoint_command
  delta-Marks token checkpoint card s = (
    λ rev x. members rev x,
    L.hgetall-perform _ _ state_key size_field ∙ rw (text_beq_refl state_key) refl,
  )
    where
      members :
          (rev : Bool) (x : Text)
          → (delta_view R key_prefix skh list ver state_key token).members
              (R.perform s (checkpoint_command (delta token fwd state_key) checkpoint card))
              rev
              x
            ≡ (delta_view R key_prefix skh list ver state_key token).members s rev x
      members true x = L.sismember-perform _ _ _ _
      members false x = L.sismember-perform _ _ _ _

  pub delta-Follows :
      (token : ℕ)
      → config.enable_reverse_index ≡ true
      → Follows R key_prefix skh config
          (delta token fwd state_key)
          (delta_view R key_prefix skh list ver state_key token)
  delta-Follows token on =
      apply_file_batch-Follows R key_prefix skh config (delta token fwd state_key)
        (delta_view R key_prefix skh list ver state_key token) (delta-Sends token on)
        (delta-Marks token)

  load-Sends :
      Sends R key_prefix skh config
        (load fwd state_key)
        (load_view R key_prefix skh list ver state_key)
  unfolding batch_commands
  load-Sends changes first_batch s =
      let v = load_view R key_prefix skh list ver state_key in
      let cs = batch_commands key_prefix skh config (load fwd state_key) changes first_batch in
      let flushed : Flushed v changes s (query R s cs) = record {
        members = λ rev x.
            sismember-load R L key_prefix skh list ver config state_key changes first_batch s x;
        checkpoint =
            hgetall-Quiet R L s cs state_key loading_size_field
              (load_commands-Quiet fwd changes (first_batch && adds changes) pending_version_ttl_s);
      } in
      Outcome-weaken _ (λ e t. Ahead v changes s t) _ (λ u t. Flushed v changes s t) _
        (λ e t k. elim k [
          | inl h ↦ subst (Ahead v changes s) (sym h) (untouched-Ahead v changes s)
          | inr h ↦
              subst (Ahead v changes s) (sym h) (Flushed-Ahead v changes s (query R s cs) flushed)
        ])
        (λ u t k. subst (Flushed v changes s) (sym k) flushed) (send_atomic-Outcome R cs s)

  load-Marks :
      Marks R key_prefix skh config
        (load fwd state_key)
        (load_view R key_prefix skh list ver state_key)
  unfolding checkpoint_command
  load-Marks checkpoint card s = (
    λ rev x. L.sismember-perform _ _ _ _,
    L.hgetall-perform _ _ state_key loading_size_field ∙ rw (text_beq_refl state_key) refl,
  )

  pub load-Follows :
      Follows R key_prefix skh config
        (load fwd state_key)
        (load_view R key_prefix skh list ver state_key)
  load-Follows =
      apply_file_batch-Follows R key_prefix skh config (load fwd state_key)
        (load_view R key_prefix skh list ver state_key) load-Sends load-Marks
