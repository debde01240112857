-- ===== src/IdList/Worker/Apply/Checkpoint.antt =====
-- A batch either ends with its checkpoint stored, or breaks off before.
use mathlib.Core.Logic.{inl, inr}
use statsig_forward_proxy.Prelude.{
  ℕ, zero, suc, ◌≡◌, ◌∙◌, refl, sym, ap, subst, Bool, true, false, Option, some, List, [], ◌∷◌,
  ◌++◌, ◌⊎◌, Text, text_eq, get, All, to_string,
}
use statsig_forward_proxy.IdList.Parser.Decoder.{FileChange}
use statsig_forward_proxy.IdList.Worker.Redis.{
  Command, expire, field_after, field_after_all, Redis, IsRedis, query, hgetall-query,
}
use statsig_forward_proxy.IdList.Worker.Send.{first, ask, ask-Outcome, send-Outcome}
use statsig_forward_proxy.IdList.Worker.Config.{WorkerConfig}
use statsig_forward_proxy.IdList.Worker.Step.{Outcome, Outcome-weaken, then_with, then_with-Outcome}
use statsig_forward_proxy.IdList.Worker.Apply.{
  FileApplyMode, forward_of, set_command, when, delta_commands, load_commands, batch_commands,
  checkpoint_command, send_batch, send_checkpoint, apply_file_batch,
}
use statsig_forward_proxy.IdList.Worker.Apply.Batches.{last_line}
use statsig_forward_proxy.IdList.Worker.Apply.Lines.{append_nil}
use statsig_forward_proxy.IdList.Worker.Apply.Stream.{View, Ahead, Done, Follows}

-- The command changes no field of a hash.
abbrev pub Quiet : Command → Type 0
Quiet c = (j f : Text) (old : Option Text) → field_after j f c old ≡ old

pub field_after-Quiet :
    (cs : List Command) (j f : Text) (old : Option Text)
    → All Quiet cs
    → field_after_all j f cs old ≡ old
field_after-Quiet [] j f old h = refl
field_after-Quiet (c ∷ cs) j f old h =
    ap (field_after_all j f cs) (h.0 j f old) ∙ field_after-Quiet cs j f old h.1

set_command-Quiet : (add : Bool) (k m : Text) → Quiet (set_command add k m)
set_command-Quiet true k m j f old = refl
set_command-Quiet false k m j f old = refl

pub delta_commands-Quiet :
    (key_prefix skh : Text) (config : WorkerConfig) (token : ℕ) (forward_key : Text)
    (changes : List FileChange)
    → config.enable_reverse_index ≡ true
    → All Quiet (delta_commands key_prefix skh config token forward_key changes)
unfolding delta_commands
delta_commands-Quiet key_prefix skh config token forward_key [] on = tt
delta_commands-Quiet key_prefix skh config token forward_key (c ∷ cs) on =
    rw (delta_commands, on)
      (
        set_command-Quiet c.add _ _,
        (
          set_command-Quiet c.add _ _,
          delta_commands-Quiet key_prefix skh config token forward_key cs on,
        ),
      )

when-Quiet : (b : Bool) (k : Text) (seconds : ℕ) → All Quiet (when b (expire k seconds))
when-Quiet true k seconds = (λ j f old. refl, tt)
when-Quiet false k seconds = tt

pub load_commands-Quiet :
    (forward_key : Text) (changes : List FileChange) (b : Bool) (seconds : ℕ)
    → All Quiet (load_commands forward_key changes ++ when b (expire forward_key seconds))
unfolding load_commands
load_commands-Quiet forward_key [] b seconds = when-Quiet b forward_key seconds
load_commands-Quiet forward_key (c ∷ cs) b seconds =
    (set_command-Quiet c.add _ _, load_commands-Quiet forward_key cs b seconds)

pub hgetall-Quiet :
    (R : Redis) (L : IsRedis R) (s : R.State) (cs : List Command) (j f : Text)
    → All Quiet cs
    → get f (R.hgetall (query R s cs) j) ≡ get f (R.hgetall s j)
hgetall-Quiet R L s cs j f h = hgetall-query R L s cs j f ∙ field_after-Quiet cs j f _ h

-- All the changes are made, and the checkpoint is still the old one.
pub record Flushed {State : Type 0} (v : View State) (changes : List FileChange) (s t : State)
    : Type 0 where
  pub members :
      (rev : Bool) (x : Text) → v.members t rev x ≡ last_line x changes (v.members s rev x)
  pub checkpoint : v.checkpoint t ≡ v.checkpoint s

pub Flushed-Ahead :
    {State : Type 0} (v : View State) (changes : List FileChange) (s t : State)
    → Flushed v changes s t
    → Ahead v changes s t
Flushed-Ahead v changes s t h = record {
  ahead = λ rev. changes;
  later = λ rev. [];
  begun = λ rev. sym (append_nil changes);
  near = inl refl;
  members = h.members;
  checkpoint = h.checkpoint;
}

pub untouched-Ahead :
    {State : Type 0} (v : View State) (changes : List FileChange) (s : State) → Ahead v changes s s
untouched-Ahead v changes s = record {
  ahead = λ rev. [];
  later = λ rev. changes;
  begun = λ rev. refl;
  near = inl refl;
  members = λ rev x. refl;
  checkpoint = refl;
}

module _ (R : Redis) (key_prefix skh : Text) (config : WorkerConfig) (mode : FileApplyMode)
    (v : View R.State) where
  -- The mutations of a batch are made, or some of them, and the checkpoint stays.
  abbrev pub Sends : Type 0
  Sends =
      (changes : List FileChange) (first_batch : Bool) (s : R.State)
      → Outcome (λ e t. Ahead v changes s t) (λ u t. Flushed v changes s t)
          (send_batch R key_prefix skh config mode
            (batch_commands key_prefix skh config mode changes first_batch) s)

  -- The checkpoint changes nothing else.
  abbrev pub Marks : Type 0
  Marks =
      (checkpoint card : ℕ) (s : R.State)
      → ((rev : Bool) (x : Text)
          → v.members (R.perform s (checkpoint_command mode checkpoint card)) rev x
            ≡ v.members s rev x)
        × (v.checkpoint (R.perform s (checkpoint_command mode checkpoint card))
            ≡ some (to_string checkpoint))

  checkpoint-Done :
      (changes : List FileChange) (checkpoint : ℕ) (s t u : R.State)
      → Marks
      → Flushed v changes s t
      → (card : ℕ) → u ≡ R.perform t (checkpoint_command mode checkpoint card)
      → Done v changes checkpoint s u
  checkpoint-Done changes checkpoint s t u marks h card e =
      subst (Done v changes checkpoint s) (sym e) (record {
        members = λ rev x. (marks checkpoint card t).0 rev x ∙ h.members rev x;
        checkpoint = (marks checkpoint card t).1;
      })

  send_checkpoint-Outcome :
      (changes : List FileChange) (checkpoint : ℕ) (s t : R.State)
      → Marks
      → Flushed v changes s t
      → Outcome
          (λ e u. Ahead v changes s u ⊎ Done v changes checkpoint s u)
          (λ z u. Done v changes checkpoint s u)
          (send_checkpoint R key_prefix skh config mode checkpoint t)
  unfolding query
  send_checkpoint-Outcome changes checkpoint s t marks h =
      let card = R.scard t (forward_of mode) in
      let cs = checkpoint_command mode checkpoint card ∷ [] in
      Outcome-weaken _ (λ e u. Ahead v changes s u ⊎ Done v changes checkpoint s u) _
        (λ z u. Done v changes checkpoint s u) _ (λ e u k. broken u k.0 k.1)
        (λ z u k. checkpoint-Done changes checkpoint s t u marks h card k) (send-Outcome R cs t)
    where
      broken :
          (u : R.State) (n : ℕ)
          → u
            ≡ query R t
                (first n (checkpoint_command mode checkpoint (R.scard t (forward_of mode)) ∷ []))
          → Ahead v changes s u ⊎ Done v changes checkpoint s u
      broken u zero e = inl (subst (Ahead v changes s) (sym e) (Flushed-Ahead v changes s t h))
      broken u (suc zero) e = inr (checkpoint-Done changes checkpoint s t u marks h _ e)
      broken u (suc (suc n)) e = inr (checkpoint-Done changes checkpoint s t u marks h _ e)

  pub apply_file_batch-Follows : Sends → Marks → Follows R key_prefix skh config mode v
  unfolding apply_file_batch
  apply_file_batch-Follows sends marks changes checkpoint first_batch s =
      let cs = batch_commands key_prefix skh config mode changes first_batch in
      let E : R.State → Type 0 = λ t. Ahead v changes s t ⊎ Done v changes checkpoint s t in
      let A : R.State → Type 0 = Ahead v changes s in
      let F : R.State → Type 0 = Flushed v changes s in
      let sent = then_with (ask R s) (λ _. send_batch R key_prefix skh config mode cs) in
      let sent_ok : Outcome (λ e t. A t) (λ u t. F t) sent =
        then_with-Outcome (λ e t. A t) (λ u t. t ≡ s) (λ u t. F t) (ask R s) _
          (Outcome-weaken _ (λ e t. A t) _ (λ u t. t ≡ s) _
            (λ e t h. subst A (sym h) (untouched-Ahead v changes s)) (λ u t h. h) (ask-Outcome R s))
          (λ u t h.
            subst
              (λ z.
                Outcome (λ e t. A t) (λ u t. F t) (send_batch R key_prefix skh config mode cs z))
              (sym h) (sends changes first_batch s)) in
      let asked_ok : Outcome (λ e t. A t) (λ u t. F t) (then_with sent (λ _. ask R)) =
        then_with-Outcome (λ e t. A t) (λ u t. F t) (λ u t. F t) sent _ sent_ok
          (λ u t h.
            Outcome-weaken _ (λ e z. A z) _ (λ w z. F z) _
              (λ e z k. subst A (sym k) (Flushed-Ahead v changes s t h))
              (λ w z k. subst F (sym k) h) (ask-Outcome R t)) in
      then_with-Outcome (λ e t. E t) (λ u t. F t) (λ u t. Done v changes checkpoint s t)
        (then_with sent (λ _. ask R)) _
        (Outcome-weaken _ (λ e t. E t) _ (λ u t. F t) _ (λ e t h. inl h) (λ u t h. h) asked_ok)
        (λ u t h. send_checkpoint-Outcome changes checkpoint s t marks h)
