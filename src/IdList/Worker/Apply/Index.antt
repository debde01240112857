-- ===== src/IdList/Worker/Apply/Index.antt =====
-- What the stream of a file leaves of the forward set, of the reverse index and of the checkpoint.
use mathlib.Core.Logic.{inl, inr}
use statsig_forward_proxy.Prelude.{
  ℕ, ◌≡◌, ◌∙◌, refl, sym, ap, true, false, List, [], ◌∷◌, ◌++◌, ◌⊎◌, arith, Text, get, text_eq,
  text_beq, text_beq_refl, to_string, length, any, Bool-cases,
}
use statsig_forward_proxy.IdList.Schema.State.{size_field}
use statsig_forward_proxy.IdList.Schema.Keys.{member_key, fwd_key}
use statsig_forward_proxy.IdList.Parser.Decoder.{Bytes, FileChange, DecodedLine, new}
use statsig_forward_proxy.IdList.Worker.Redis.{Redis, IsRedis}
use statsig_forward_proxy.IdList.Worker.Config.{WorkerConfig}
use statsig_forward_proxy.IdList.Worker.Step.{WorkerError, Outcome, Outcome-weaken}
use statsig_forward_proxy.IdList.Worker.Apply.{delta, load, apply_file_stream}
use statsig_forward_proxy.IdList.Worker.Apply.Batches.{last_line, last_line-append}
use statsig_forward_proxy.IdList.Worker.Apply.Cut.{Near}
use statsig_forward_proxy.IdList.Worker.Apply.Lines.{changes_of, last_end, stored_end, append_assoc}
use statsig_forward_proxy.IdList.Worker.Apply.Stream.{lines_of, AppliedUpTo, AppliedPart}
use statsig_forward_proxy.IdList.Worker.Apply.Modes.{
  delta_view, load_view, delta-Follows, load-Follows,
}
use statsig_forward_proxy.IdList.Worker.Apply.Chunks.{apply_file_stream-Outcome}

-- The reverse index of a list mirrors a forward set: the set of a member holds the token of the list
-- exactly if the forward set holds the member.
pub record Mirrors (R : Redis) (key_prefix skh list ver : Text) (token : ℕ) (s : R.State)
    : Type 0 where
  pub at :
      (x : Text)
      → R.sismember s (member_key key_prefix skh x) (to_string token)
        ≡ R.sismember s (fwd_key key_prefix skh list ver) x

any-last :
    (c : FileChange) (before after : List FileChange)
    → any (λ d. text_beq d.member c.member) ((before ++ (c ∷ [])) ++ after) ≡ true
any-last c [] after = rw (text_beq_refl c.member) refl
any-last c (b ∷ bs) after = ground (arith, any-last c bs after)

module _ (R : Redis) (L : IsRedis R) (key_prefix skh list ver state_key : Text)
    (config : WorkerConfig) where
  abbrev fwd : Text
  fwd = fwd_key key_prefix skh list ver

  pub apply_file_stream-delta :
      (token start : ℕ) (chunks : List (WorkerError ⊎ Bytes)) (s : R.State)
      → config.enable_reverse_index ≡ true
      → Outcome
          (λ e t.
            AppliedPart
              (delta_view R key_prefix skh list ver state_key token)
              s
              (lines_of (new start) chunks)
              t)
          (λ r t.
            AppliedUpTo
              (delta_view R key_prefix skh list ver state_key token)
              s
              (lines_of (new start) chunks)
              t
            × (r.checkpoint ≡ last_end start (lines_of (new start) chunks))
            × (r.lines ≡ length (changes_of (lines_of (new start) chunks))))
          (apply_file_stream R key_prefix skh config
            (delta token fwd state_key)
            start
            (inr chunks)
            s)
  apply_file_stream-delta token start chunks s on =
      apply_file_stream-Outcome R key_prefix skh config (delta token fwd state_key)
        (delta_view R key_prefix skh list ver state_key token)
        (delta-Follows R L key_prefix skh list ver state_key config token on) start s chunks

  -- A load: if no error ends it, all the decoded lines are applied to the forward set of the version,
  -- and the field `loading_size` holds the end offset of the last one. If an error ends it, the lines
  -- up to the stored offset are applied, and a prefix of the changes behind it.
  pub apply_file_stream-load :
      (start : ℕ) (chunks : List (WorkerError ⊎ Bytes)) (s : R.State)
      → Outcome
          (λ e t.
            AppliedPart
              (load_view R key_prefix skh list ver state_key)
              s
              (lines_of (new start) chunks)
              t)
          (λ r t.
            AppliedUpTo
              (load_view R key_prefix skh list ver state_key)
              s
              (lines_of (new start) chunks)
              t
            × (r.checkpoint ≡ last_end start (lines_of (new start) chunks))
            × (r.lines ≡ length (changes_of (lines_of (new start) chunks))))
          (apply_file_stream R key_prefix skh config (load fwd state_key) start (inr chunks) s)
  apply_file_stream-load start chunks s =
      apply_file_stream-Outcome R key_prefix skh config (load fwd state_key)
        (load_view R key_prefix skh list ver state_key)
        (load-Follows R L key_prefix skh list ver state_key config) start s chunks

  AppliedUpTo-Mirrors :
      (token : ℕ) (s t : R.State) (lines : List DecodedLine)
      → Mirrors R key_prefix skh list ver token s
      → AppliedUpTo (delta_view R key_prefix skh list ver state_key token) s lines t
      → Mirrors R key_prefix skh list ver token t
  AppliedUpTo-Mirrors token s t lines m a = record {
    at = λ x.
        a.members true x ∙ (ap (last_line x (changes_of lines)) (m.at x) ∙ sym (a.members false x));
  }

  -- The lines behind the stored checkpoint change at most one member that the index does not mirror.
  pub record NearlyMirrors (token : ℕ) (s : R.State) (lines : List DecodedLine) (t : R.State)
      : Type 0 where
    pub flushed : List DecodedLine
    pub rest : List DecodedLine
    pub split : lines ≡ flushed ++ rest
    pub checkpoint :
        get size_field (R.hgetall t state_key)
        ≡ stored_end (get size_field (R.hgetall s state_key)) flushed
    pub but_one :
        Mirrors R key_prefix skh list ver token t
        ⊎ ((c : FileChange) × (any (λ d. text_beq d.member c.member) (changes_of rest) ≡ true)
            × ((x : Text)
                → (text_beq c.member x ≡ true)
                  ⊎ (R.sismember t (member_key key_prefix skh x) (to_string token)
                      ≡ R.sismember t fwd x)))

  AppliedPart-NearlyMirrors :
      (token : ℕ) (s t : R.State) (lines : List DecodedLine)
      → Mirrors R key_prefix skh list ver token s
      → AppliedPart (delta_view R key_prefix skh list ver state_key token) s lines t
      → NearlyMirrors token s lines t
  AppliedPart-NearlyMirrors token s t lines m p = record {
    flushed = p.flushed;
    rest = p.rest;
    split = p.split;
    checkpoint = p.checkpoint;
    but_one = of_near p.near;
  }
    where
      of_near :
          Near (p.ahead false) (p.ahead true)
          → Mirrors R key_prefix skh list ver token t
            ⊎ ((c : FileChange) × (any (λ d. text_beq d.member c.member) (changes_of p.rest) ≡ true)
                × ((x : Text)
                    → (text_beq c.member x ≡ true)
                      ⊎ (R.sismember t (member_key key_prefix skh x) (to_string token)
                          ≡ R.sismember t fwd x)))
      of_near (inl same) = inl (record {
        at = λ x.
            p.members true x
            ∙ (ap
                  (λ cs.
                    last_line x (changes_of p.flushed ++ cs)
                      (R.sismember s (member_key key_prefix skh x) (to_string token)))
                  same
                ∙ (ap (last_line x (changes_of p.flushed ++ p.ahead false)) (m.at x)
                    ∙ sym (p.members false x)));
      })
      of_near (inr (c, more)) = inr (
        c,
        ap (any (λ d. text_beq d.member c.member)) (p.begun true)
            ∙ (ap (λ cs. any (λ d. text_beq d.member c.member) (cs ++ p.later true)) more
                ∙ any-last c (p.ahead false) (p.later true)),
        λ x. elim (Bool-cases (text_beq c.member x)) [
          | inl e ↦ inl e
          | inr e ↦ inr (
              p.members true x
              ∙ (ap
                    (λ cs.
                      last_line x (changes_of p.flushed ++ cs)
                        (R.sismember s (member_key key_prefix skh x) (to_string token)))
                    more
                  ∙ (ap (λ o. last_line x (changes_of p.flushed ++ (p.ahead false ++ (c ∷ []))) o)
                        (m.at x)
                      ∙ (ap (λ cs. last_line x cs (R.sismember s fwd x))
                            (sym (append_assoc (changes_of p.flushed) (p.ahead false) (c ∷ [])))
                          ∙ (last_line-append x (changes_of p.flushed ++ p.ahead false) (c ∷ [])
                                (R.sismember s fwd x)
                              ∙ (rw e refl ∙ sym (p.members false x)))))))
        ],
      )

  pub apply_file_stream-Mirrors :
      (token start : ℕ) (chunks : List (WorkerError ⊎ Bytes)) (s : R.State)
      → config.enable_reverse_index ≡ true
      → Mirrors R key_prefix skh list ver token s
      → Outcome
          (λ e t. NearlyMirrors token s (lines_of (new start) chunks) t)
          (λ r t. Mirrors R key_prefix skh list ver token t)
          (apply_file_stream R key_prefix skh config
            (delta token fwd state_key)
            start
            (inr chunks)
            s)
  apply_file_stream-Mirrors token start chunks s on m =
      let lines = lines_of (new start) chunks in
      Outcome-weaken _ (λ e t. NearlyMirrors token s lines t) _
        (λ r t. Mirrors R key_prefix skh list ver token t) _
        (λ e t h. AppliedPart-NearlyMirrors token s t lines m h)
        (λ r t h. AppliedUpTo-Mirrors token s t lines m h.0)
        (apply_file_stream-delta token start chunks s on)
