-- ===== src/IdList/Worker/Apply/Batches.antt =====
-- What one batch leaves of the sets: the last line for a member decides.
use statsig_forward_proxy.Prelude.{
  ℕ, ◌≡◌, ◌∙◌, refl, ap, Bool, true, false, ◌&&◌, List, [], ◌∷◌, ◌++◌, arith, Text, text_beq,
  text_beq_refl, to_string, if◌then◌else◌,
}
use statsig_forward_proxy.IdList.Schema.Keys.{member_key, fwd_key}
use statsig_forward_proxy.IdList.Schema.Apart.{
  text_beq-member_key, member_key-fwd_key, fwd_key-member_key,
}
use statsig_forward_proxy.IdList.Parser.Decoder.{FileChange}
use statsig_forward_proxy.IdList.Worker.Redis.{
  Command, expire, member_after, member_after_all, Redis, IsRedis, sismember-query, query,
}
use statsig_forward_proxy.IdList.Worker.Config.{WorkerConfig}
use statsig_forward_proxy.IdList.Worker.Apply.{
  load, set_command, adds, when, delta_commands, load_commands, batch_commands,
  pending_version_ttl_s,
}

-- Whether `x` is a member after the changes: the last line for it decides.
abbrev pub last_line : Text → List FileChange → Bool → Bool
last_line x [] old = old
last_line x (change ∷ changes) old =
    last_line x changes (if text_beq change.member x then change.add else old)

pub last_line-append :
    (x : Text) (cs ds : List FileChange) (old : Bool)
    → last_line x (cs ++ ds) old ≡ last_line x ds (last_line x cs old)
last_line-append x [] ds old = refl
last_line-append x (c ∷ cs) ds old = last_line-append x cs ds _

pub member_after-set_command :
    (add same : Bool) (k j m x : Text) (old : Bool)
    → text_beq k j && text_beq m x ≡ same
    → member_after j x (set_command add k m) old ≡ (if same then add else old)
member_after-set_command true same k j m x old h = rw h (ground arith)
member_after-set_command false same k j m x old h = rw h (ground arith)

member_after-load :
    (forward_key x : Text) (changes : List FileChange) (old : Bool)
    → member_after_all forward_key x (load_commands forward_key changes) old
      ≡ last_line x changes old
unfolding load_commands
member_after-load forward_key x [] old = refl
member_after-load forward_key x (c ∷ cs) old =
    ap (member_after_all forward_key x (load_commands forward_key cs)) (
      member_after-set_command c.add (text_beq c.member x) forward_key forward_key c.member x old
        (rw (text_beq_refl forward_key) refl))
    ∙ member_after-load forward_key x cs _

module _ (key_prefix skh list ver : Text) (config : WorkerConfig) (token : ℕ) where
  abbrev forward_key : Text
  forward_key = fwd_key key_prefix skh list ver

  abbrev commands : List FileChange → List Command
  commands = delta_commands key_prefix skh config token forward_key

  member_after-delta_forward :
      (rev : Bool) (x : Text) (changes : List FileChange) (old : Bool)
      → config.enable_reverse_index ≡ rev
      → member_after_all forward_key x (commands changes) old ≡ last_line x changes old
  unfolding delta_commands
  member_after-delta_forward rev x [] old r = refl
  member_after-delta_forward true x (c ∷ cs) old r =
      rw (delta_commands, r)
        (ap
            (λ o.
              member_after_all forward_key x (commands cs)
                (member_after forward_key x (set_command c.add forward_key c.member) o))
            (member_after-set_command c.add false (member_key key_prefix skh c.member) forward_key
              (to_string token) x old
              (rw (member_key-fwd_key key_prefix skh c.member list ver) refl))
          ∙ (ap (member_after_all forward_key x (commands cs)) (
                member_after-set_command c.add (text_beq c.member x) forward_key forward_key
                  c.member x old (rw (text_beq_refl forward_key) refl))
              ∙ member_after-delta_forward true x cs _ r))
  member_after-delta_forward false x (c ∷ cs) old r =
      rw (delta_commands, r)
        (ap (member_after_all forward_key x (commands cs)) (
            member_after-set_command c.add (text_beq c.member x) forward_key forward_key c.member x
              old (rw (text_beq_refl forward_key) refl))
          ∙ member_after-delta_forward false x cs _ r)

  member_after-delta_member :
      (x : Text) (changes : List FileChange) (old : Bool)
      → config.enable_reverse_index ≡ true
      → member_after_all (member_key key_prefix skh x) (to_string token) (commands changes) old
        ≡ last_line x changes old
  unfolding delta_commands
  member_after-delta_member x [] old r = refl
  member_after-delta_member x (c ∷ cs) old r =
      let k = member_key key_prefix skh x in
      rw (delta_commands, r)
        (ap (λ o. member_after_all k (to_string token) (commands cs) o)
            (member_after-set_command c.add false forward_key k c.member (to_string token) _
              (rw (fwd_key-member_key key_prefix skh x list ver) refl))
          ∙ (ap (member_after_all k (to_string token) (commands cs)) (
                member_after-set_command c.add (text_beq c.member x)
                  (member_key key_prefix skh c.member) k (to_string token) (to_string token) old
                  (rw
                    (text_beq-member_key key_prefix skh c.member x, text_beq_refl (to_string token))
                    (ground arith)))
              ∙ member_after-delta_member x cs _ r))

pub member_after-append :
    (j x : Text) (cs ds : List Command) (old : Bool)
    → member_after_all j x (cs ++ ds) old ≡ member_after_all j x ds (member_after_all j x cs old)
member_after-append j x [] ds old = refl
member_after-append j x (c ∷ cs) ds old = member_after-append j x cs ds (member_after j x c old)

expire_members :
    (b : Bool) (j x k : Text) (seconds : ℕ) (old : Bool)
    → member_after_all j x (when b (expire k seconds)) old ≡ old
expire_members true j x k seconds old = refl
expire_members false j x k seconds old = refl

module _ (R : Redis) (L : IsRedis R) (key_prefix skh list ver : Text) (config : WorkerConfig) where
  abbrev fwd : Text
  fwd = fwd_key key_prefix skh list ver

  -- After a batch the last line of the batch for a member decides, in both indexes.
  pub sismember-delta_forward :
      (token : ℕ) (changes : List FileChange) (s : R.State) (x : Text)
      → R.sismember (query R s (delta_commands key_prefix skh config token fwd changes)) fwd x
        ≡ last_line x changes (R.sismember s fwd x)
  sismember-delta_forward token changes s x =
      sismember-query R L s _ fwd x
      ∙ member_after-delta_forward key_prefix skh list ver config token config.enable_reverse_index
          x changes _ refl

  pub sismember-delta_member :
      (token : ℕ) (changes : List FileChange) (s : R.State) (x : Text)
      → config.enable_reverse_index ≡ true
      → R.sismember
          (query R s (delta_commands key_prefix skh config token fwd changes))
          (member_key key_prefix skh x)
          (to_string token)
        ≡ last_line x changes (R.sismember s (member_key key_prefix skh x) (to_string token))
  sismember-delta_member token changes s x rev =
      sismember-query R L s _ _ _
      ∙ member_after-delta_member key_prefix skh list ver config token x changes _ rev

  pub sismember-load :
      (state_key : Text) (changes : List FileChange) (first : Bool) (s : R.State) (x : Text)
      → R.sismember
          (query R s (batch_commands key_prefix skh config (load fwd state_key) changes first))
          fwd
          x
        ≡ last_line x changes (R.sismember s fwd x)
  unfolding batch_commands
  sismember-load state_key changes first s x =
      sismember-query R L s _ fwd x
      ∙ (member_after-append fwd x (load_commands fwd changes) _ _
          ∙ (expire_members (first && adds changes) fwd x fwd pending_version_ttl_s _
              ∙ member_after-load fwd x changes _))
