-- ===== src/IdList/Worker/Apply/Success.antt =====
-- A download that decodes, under a claim that is kept, is applied to the end.
use mathlib.Core.Logic.{inl, inr}
use statsig_forward_proxy.Prelude.{
  ℕ, ◌≡◌, ◌∙◌, refl, sym, ap, subst, true, false, List, [], ◌∷◌, ◌++◌, ◌⊎◌, Text, length, Bool,
  Bool-cases, leb, ltb,
}
use statsig_forward_proxy.IdList.Schema.Keys.{fwd_key}
use statsig_forward_proxy.IdList.Parser.Decoder.{
  Bytes, FileChange, DecodedLine, CompleteLineDecoder, Decoded, new, push,
}
use statsig_forward_proxy.IdList.Parser.Chunks.{
  push_all, push_all-concat, concat, and_then, prepend,
}
use statsig_forward_proxy.IdList.Worker.Redis.{Command, Redis, IsRedis}
use statsig_forward_proxy.IdList.Worker.Send.{ask, send, send_atomic, IsReliable}
use statsig_forward_proxy.IdList.Worker.Config.{WorkerConfig}
use statsig_forward_proxy.IdList.Worker.Step.{
  WorkerError, Outcome, Outcome-weaken, Outcome-returns, then_with, then_with-Outcome,
}
use statsig_forward_proxy.IdList.Worker.Apply.{
  FileApplyMode, delta, load, Loop, add_line, batch_commands, send_batch, apply_file_batch,
  apply_line, finish_batch, apply_lines, apply_decoded, receive, apply_chunk, apply_chunks, finish,
  apply_file_stream,
}
use statsig_forward_proxy.IdList.Worker.Apply.Lines.{changes_of, last_end}
use statsig_forward_proxy.IdList.Worker.Apply.Stream.{lines_of, AppliedUpTo, add_line-decoder}
use statsig_forward_proxy.IdList.Worker.Apply.Modes.{delta_view}
use statsig_forward_proxy.IdList.Worker.Apply.Index.{apply_file_stream-delta}

-- A chunk that decodes, and the chunks behind it.
record Split (r : Decoded) (next : CompleteLineDecoder → Decoded) (lines : List DecodedLine)
    (end : CompleteLineDecoder) : Type 0 where
  pub first : List DecodedLine
  pub between : CompleteLineDecoder
  pub later : List DecodedLine
  pub here : r ≡ inr (first, between)
  pub there : next between ≡ inr (later, end)
  pub whole : lines ≡ first ++ later

and_then-Split :
    (r : Decoded) (next : CompleteLineDecoder → Decoded) (lines : List DecodedLine)
    (end : CompleteLineDecoder)
    → and_then r next ≡ inr (lines, end)
    → Split r next lines end
and_then-Split (inl e) next lines end h = cc
and_then-Split (inr (ds, d)) next lines end h = go (next d) refl h
  where
    go :
        (s : Decoded)
        → next d ≡ s
        → prepend ds s ≡ inr (lines, end)
        → Split (inr (ds, d)) next lines end
    go (inl e) k h' = cc
    go (inr (es, d')) k h' = record {
      first = ds;
      between = d;
      later = es;
      here = refl;
      there = k ∙ cc;
      whole = cc;
    }

abbrev pub body : List Bytes → List (WorkerError ⊎ Bytes)
body [] = []
body (c ∷ cs) = inr c ∷ body cs

lines_of-body :
    (cs : List Bytes) (d : CompleteLineDecoder) (lines : List DecodedLine)
    (end : CompleteLineDecoder)
    → push_all d cs ≡ inr (lines, end)
    → lines_of d (body cs) ≡ lines
unfolding push_all lines_of
lines_of-body [] d lines end h = cc
lines_of-body (c ∷ cs) d lines end h =
    let p = and_then-Split (push d c) (λ d'. push_all d' cs) lines end h in
    rw (lines_of, p.here, lines_of-body cs p.between p.later end p.there) (sym p.whole)

module _ (R : Redis) (key_prefix skh : Text) (config : WorkerConfig) (mode : FileApplyMode)
    (works : IsReliable R) (kept : (s : R.State) → R.claim_lost s ≡ false) where
  abbrev Ends : {A : Type 0} → (A → Type 0) → (WorkerError ⊎ A) × R.State → Type 0
  Ends P = Outcome (λ e t. ⊥) (λ a t. P a)

  ask-Returns : (s : R.State) → Ends (λ u. Unit {0}) (ask R s)
  unfolding ask
  ask-Returns s = rw (ask, works.answered s) tt

  send-Returns : (cs : List Command) (s : R.State) → Ends (λ u. Unit {0}) (send R cs s)
  unfolding send
  send-Returns cs s = rw (send, works.uncut s cs) tt

  send_batch-Returns :
      (mode' : FileApplyMode) (cs : List Command) (s : R.State)
      → Ends (λ u. Unit {0}) (send_batch R key_prefix skh config mode' cs s)
  unfolding send_atomic
  send_batch-Returns (delta token forward_key state_key) cs s = send-Returns cs s
  send_batch-Returns (load forward_key state_key) cs s = rw (send_atomic, works.uncut s cs) tt

  batch-Returns :
      (changes : List FileChange) (checkpoint : ℕ) (first : Bool) (s : R.State)
      → Ends
          (λ u. Unit {0})
          (apply_file_batch R key_prefix skh config mode changes checkpoint first s)
  unfolding apply_file_batch
  batch-Returns changes checkpoint first s =
      let cs = batch_commands key_prefix skh config mode changes first in
      let sent = then_with (ask R s) (λ _. send_batch R key_prefix skh config mode cs) in
      then_with-Outcome (λ e t. ⊥) (λ u t. Unit {0}) (λ u t. Unit {0}) (then_with sent (λ _. ask R))
        _
        (then_with-Outcome (λ e t. ⊥) (λ u t. Unit {0}) (λ u t. Unit {0}) sent _
          (then_with-Outcome (λ e t. ⊥) (λ u t. Unit {0}) (λ u t. Unit {0}) (ask R s) _
            (ask-Returns s) (λ u t h. send_batch-Returns mode cs t))
          (λ u t h. ask-Returns t))
        (λ u t h. send-Returns _ t)

  apply_line-Returns :
      (line : DecodedLine) (l : Loop) (s : R.State)
      → Ends (λ m. m.decoder ≡ l.decoder) (apply_line R key_prefix skh config mode line l s)
  unfolding apply_line
  apply_line-Returns line l s =
      let m = add_line line l in
      elim (Bool-cases (leb config.pipeline_batch_size (length m.batch))) [
        | inl e ↦
            rw (apply_line, e)
              (then_with-Outcome (λ e t. ⊥) (λ u t. Unit {0}) (λ n t. n.decoder ≡ l.decoder)
                (apply_file_batch R key_prefix skh config mode m.batch m.batch_checkpoint
                  m.first_load_batch s)
                _ (batch-Returns m.batch m.batch_checkpoint m.first_load_batch s)
                (λ u t h. add_line-decoder line l))
        | inr e ↦ rw (apply_line, e) (add_line-decoder line l)
      ]

  apply_lines-Returns :
      (lines : List DecodedLine) (l : Loop) (s : R.State)
      → Ends (λ m. m.decoder ≡ l.decoder) (apply_lines R key_prefix skh config mode lines l s)
  unfolding apply_lines
  apply_lines-Returns [] l s = refl
  apply_lines-Returns (line ∷ lines) l s =
      then_with-Outcome (λ e t. ⊥) (λ m t. m.decoder ≡ l.decoder) (λ m t. m.decoder ≡ l.decoder)
        (apply_line R key_prefix skh config mode line l s) _ (apply_line-Returns line l s)
        (λ m t h.
          Outcome-weaken (λ e u. ⊥) (λ e u. ⊥) (λ n u. n.decoder ≡ m.decoder)
            (λ n u. n.decoder ≡ l.decoder) _ (λ e u k. k) (λ n u k. k ∙ h)
            (apply_lines-Returns lines m t))

  apply_chunks-Returns :
      (cs : List Bytes) (l : Loop) (s : R.State) (lines : List DecodedLine)
      (end : CompleteLineDecoder)
      → push_all l.decoder cs ≡ inr (lines, end)
      → Ends (λ m. Unit {0}) (apply_chunks R key_prefix skh config mode (body cs) l s)
  unfolding apply_chunks apply_chunk receive apply_decoded push_all
  apply_chunks-Returns [] l s lines end h = tt
  apply_chunks-Returns (c ∷ cs) l s lines end h =
      let p = and_then-Split (push l.decoder c) (λ d'. push_all d' cs) lines end h in
      let l0 = record l { decoder = p.between } in
      rw (apply_chunks, apply_chunk, receive, apply_decoded, kept s, p.here)
        (then_with-Outcome (λ e t. ⊥) (λ m t. m.decoder ≡ p.between) (λ m t. Unit {0})
          (apply_lines R key_prefix skh config mode p.first l0 s) _
          (apply_lines-Returns p.first l0 s)
          (λ m t k. apply_chunks-Returns cs m t p.later end (ap (λ d. push_all d cs) k ∙ p.there)))

  finish_batch-Returns :
      (start : ℕ) (l : Loop) (s : R.State)
      → Ends (λ u. Unit {0}) (finish_batch R key_prefix skh config mode start l s)
  unfolding finish_batch
  finish_batch-Returns start l s = elim (Bool-cases (ltb start l.batch_checkpoint)) [
    | inl e ↦ rw (finish_batch, e) (batch-Returns l.batch l.batch_checkpoint l.first_load_batch s)
    | inr e ↦ rw (finish_batch, e) tt
  ]

  apply_file_stream-Returns :
      (start : ℕ) (cs : List Bytes) (s : R.State) (lines : List DecodedLine)
      (end : CompleteLineDecoder)
      → push_all (new start) cs ≡ inr (lines, end)
      → Ends
          (λ r. Unit {0})
          (apply_file_stream R key_prefix skh config mode start (inr (body cs)) s)
  unfolding apply_file_stream finish
  apply_file_stream-Returns start cs s lines end h =
      then_with-Outcome (λ e t. ⊥) (λ l t. Unit {0}) (λ r t. Unit {0}) _ _
        (apply_chunks-Returns cs _ s lines end h)
        (λ l t u.
          then_with-Outcome (λ e z. ⊥) (λ w z. Unit {0}) (λ r z. Unit {0})
            (finish_batch R key_prefix skh config mode start l t) _ (finish_batch-Returns start l t)
            (λ w z k. tt))

module _ (R : Redis) (L : IsRedis R) (key_prefix skh list ver state_key : Text)
    (config : WorkerConfig) (works : IsReliable R)
    (kept : (s : R.State) → R.claim_lost s ≡ false) where
  -- A delta whose download arrives whole, in whatever chunks, and whose lines are all well-formed,
  -- does not fail while Redis answers and the claim is kept: the forward set and the reverse index hold what the last
  -- line for each member says, the result has the end offset of the last line, and so has the field
  -- `size` if there is a line. The reverse index has to be enabled.
  pub apply_file_stream-succeeds :
      (token start : ℕ) (cs : List Bytes) (s : R.State) (lines : List DecodedLine)
      (end : CompleteLineDecoder)
      → config.enable_reverse_index ≡ true
      → push (new start) (concat cs) ≡ inr (lines, end)
      → Outcome
          (λ e t. ⊥)
          (λ r t.
            AppliedUpTo (delta_view R key_prefix skh list ver state_key token) s lines t
            × (r.checkpoint ≡ last_end start lines)
            × (r.lines ≡ length (changes_of lines)))
          (apply_file_stream R key_prefix skh config
            (delta token (fwd_key key_prefix skh list ver) state_key)
            start
            (inr (body cs))
            s)
  apply_file_stream-succeeds token start cs s lines end on h =
      let whole = push_all-concat (new start) cs tt ∙ h in
      subst
        (λ ls.
          Outcome (λ e t. ⊥)
            (λ r t.
              AppliedUpTo (delta_view R key_prefix skh list ver state_key token) s ls t
              × (r.checkpoint ≡ last_end start ls)
              × (r.lines ≡ length (changes_of ls)))
            (apply_file_stream R key_prefix skh config
              (delta token (fwd_key key_prefix skh list ver) state_key) start (inr (body cs)) s))
        (lines_of-body cs (new start) lines end whole)
        (Outcome-returns _ _ _
          (apply_file_stream-delta R L key_prefix skh list ver state_key config token start
            (body cs) s on)
          (apply_file_stream-Returns R key_prefix skh config
            (delta token (fwd_key key_prefix skh list ver) state_key) works kept start cs s lines
            end whole))
