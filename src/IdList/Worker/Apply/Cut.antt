-- ===== src/IdList/Worker/Apply/Cut.antt =====
-- What is left where the pipeline of a delta breaks.
use mathlib.Core.Logic.{inl, inr}
use statsig_forward_proxy.Prelude.{
  ℕ, zero, suc, ◌≡◌, ◌∙◌, refl, ap, Bool, true, false, List, [], ◌∷◌, ◌++◌, ◌⊎◌, arith, Text,
  text_beq, text_beq_refl, to_string, if◌then◌else◌,
}
use statsig_forward_proxy.IdList.Schema.Keys.{member_key, fwd_key}
use statsig_forward_proxy.IdList.Schema.Apart.{
  text_beq-member_key, member_key-fwd_key, fwd_key-member_key,
}
use statsig_forward_proxy.IdList.Parser.Decoder.{FileChange}
use statsig_forward_proxy.IdList.Worker.Redis.{Command, member_after, member_after_all}
use statsig_forward_proxy.IdList.Worker.Send.{first}
use statsig_forward_proxy.IdList.Worker.Config.{WorkerConfig}
use statsig_forward_proxy.IdList.Worker.Apply.{set_command, delta_commands}
use statsig_forward_proxy.IdList.Worker.Apply.Batches.{last_line, member_after-set_command}

-- The reverse index has got as many changes as the forward set, or one more.
abbrev pub Near : List FileChange → List FileChange → Type 0
Near forward reverse = (reverse ≡ forward) ⊎ ((c : FileChange) × (reverse ≡ forward ++ (c ∷ [])))

Near-cons : (c : FileChange) (f r : List FileChange) → Near f r → Near (c ∷ f) (c ∷ r)
Near-cons c f r (inl h) = inl (ap (λ l. c ∷ l) h)
Near-cons c f r (inr (d, h)) = inr (d, ap (λ l. c ∷ l) h)

module _ (key_prefix skh list ver : Text) (config : WorkerConfig) (token : ℕ)
    (on : config.enable_reverse_index ≡ true) where
  abbrev fwd : Text
  fwd = fwd_key key_prefix skh list ver

  abbrev commands : List FileChange → List Command
  commands = delta_commands key_prefix skh config token fwd

  -- The changes that the forward set and the reverse index have got from some of the commands.
  pub record Cut (sent : List Command) (changes : List FileChange) : Type 0 where
    pub forward : List FileChange
    pub forward_rest : List FileChange
    pub reverse : List FileChange
    pub reverse_rest : List FileChange
    pub forward_split : changes ≡ forward ++ forward_rest
    pub reverse_split : changes ≡ reverse ++ reverse_rest
    pub near : Near forward reverse
    pub forward_set :
        (x : Text) (old : Bool) → member_after_all fwd x sent old ≡ last_line x forward old
    pub member_set :
        (x : Text) (old : Bool)
        → member_after_all (member_key key_prefix skh x) (to_string token) sent old
          ≡ last_line x reverse old

  nothing : (changes : List FileChange) → Cut [] changes
  nothing changes = record {
    forward = [];
    forward_rest = changes;
    reverse = [];
    reverse_rest = changes;
    forward_split = refl;
    reverse_split = refl;
    near = inl refl;
    forward_set = λ x old. refl;
    member_set = λ x old. refl;
  }

  abbrev to_member : FileChange → Command
  to_member c = set_command c.add (member_key key_prefix skh c.member) (to_string token)

  abbrev to_forward : FileChange → Command
  to_forward c = set_command c.add fwd c.member

  member-forward :
      (c : FileChange) (x : Text) (old : Bool) → member_after fwd x (to_member c) old ≡ old
  member-forward c x old =
      member_after-set_command c.add false (member_key key_prefix skh c.member) fwd
        (to_string token) x old (rw (member_key-fwd_key key_prefix skh c.member list ver) refl)

  member-member :
      (c : FileChange) (x : Text) (old : Bool)
      → member_after (member_key key_prefix skh x) (to_string token) (to_member c) old
        ≡ (if text_beq c.member x then c.add else old)
  member-member c x old =
      member_after-set_command c.add (text_beq c.member x) (member_key key_prefix skh c.member)
        (member_key key_prefix skh x) (to_string token) (to_string token) old
        (rw (text_beq-member_key key_prefix skh c.member x, text_beq_refl (to_string token))
          (ground arith))

  forward-forward :
      (c : FileChange) (x : Text) (old : Bool)
      → member_after fwd x (to_forward c) old ≡ (if text_beq c.member x then c.add else old)
  forward-forward c x old =
      member_after-set_command c.add (text_beq c.member x) fwd fwd c.member x old
        (rw (text_beq_refl fwd) refl)

  forward-member :
      (c : FileChange) (x : Text) (old : Bool)
      → member_after (member_key key_prefix skh x) (to_string token) (to_forward c) old ≡ old
  forward-member c x old =
      member_after-set_command c.add false fwd (member_key key_prefix skh x) c.member
        (to_string token) old (rw (fwd_key-member_key key_prefix skh x list ver) refl)

  only_member : (c : FileChange) (changes : List FileChange) → Cut (to_member c ∷ []) (c ∷ changes)
  only_member c changes = record {
    forward = [];
    forward_rest = c ∷ changes;
    reverse = c ∷ [];
    reverse_rest = changes;
    forward_split = refl;
    reverse_split = refl;
    near = inr (c, refl);
    forward_set = λ x old. member-forward c x old;
    member_set = λ x old. member-member c x old;
  }

  one_more :
      (c : FileChange) (sent : List Command) (changes : List FileChange)
      → Cut sent changes
      → Cut (to_member c ∷ to_forward c ∷ sent) (c ∷ changes)
  one_more c sent changes k = record {
    forward = c ∷ k.forward;
    forward_rest = k.forward_rest;
    reverse = c ∷ k.reverse;
    reverse_rest = k.reverse_rest;
    forward_split = ap (λ l. c ∷ l) k.forward_split;
    reverse_split = ap (λ l. c ∷ l) k.reverse_split;
    near = Near-cons c k.forward k.reverse k.near;
    forward_set = λ x old.
        ap (λ o. member_after_all fwd x sent (member_after fwd x (to_forward c) o))
          (member-forward c x old)
        ∙ (ap (member_after_all fwd x sent) (forward-forward c x old) ∙ k.forward_set x _);
    member_set = λ x old.
        ap (member_after_all (member_key key_prefix skh x) (to_string token) sent)
          (forward-member c x _ ∙ member-member c x old)
        ∙ k.member_set x _;
  }

  pub delta_commands-Cut :
      (n : ℕ) (changes : List FileChange) → Cut (first n (commands changes)) changes
  unfolding delta_commands
  delta_commands-Cut zero changes = nothing changes
  delta_commands-Cut (suc n) [] = nothing []
  delta_commands-Cut (suc zero) (c ∷ changes) = rw (delta_commands, on) (only_member c changes)
  delta_commands-Cut (suc (suc n)) (c ∷ changes) =
      rw (delta_commands, on)
        (one_more c (first n (commands changes)) changes (delta_commands-Cut n changes))
