-- ===== src/IdList/Worker/Apply/Chunks.antt =====
-- What `apply_file_stream` leaves, however it ends.
use mathlib.Core.Logic.{inl, inr}
use statsig_forward_proxy.Prelude.{
  ℕ, ◌≡◌, ◌<◌, ◌≤◌, ◌∙◌, refl, sym, ap, subst, true, false, some, List, [], ◌∷◌, ◌++◌, ◌⊎◌, arith,
  Text, All, All-append, length, ltb, to_string, Bool-cases,
}
use statsig_forward_proxy.IdList.Parser.Decoder.{
  Bytes, DecodedLine, CompleteLineDecoder, Decoded, new, push,
}
use statsig_forward_proxy.IdList.Worker.Redis.{Redis}
use statsig_forward_proxy.IdList.Worker.Config.{WorkerConfig}
use statsig_forward_proxy.IdList.Worker.Step.{
  WorkerError, Outcome, Outcome-weaken, then_with, then_with-Outcome,
}
use statsig_forward_proxy.IdList.Worker.Apply.{
  FileApplyMode, Loop, StreamApplyResult, apply_line, apply_lines, apply_decoded, receive,
  apply_chunk, apply_chunks, finish_batch, finish, apply_file_stream,
}
use statsig_forward_proxy.IdList.Worker.Apply.Lines.{
  changes_of, last_end, last_end-Above, stored_end-cons, append_nil, lines_assoc, Above, push-Above,
}
use statsig_forward_proxy.IdList.Worker.Apply.Stream.{
  lines_of, View, AppliedUpTo, AppliedPart, Follows, At, AtWith, AppliedUpTo-part, AppliedPart-more,
  flush-Outcome, apply_line-At,
}

-- Every line that is decoded ends behind `lo`.
pub lines_of-Above :
    (lo : ℕ) (d : CompleteLineDecoder) (chunks : List (WorkerError ⊎ Bytes))
    → lo ≤ d.next_offset
    → All (λ l. lo < l.end_offset) (lines_of d chunks)
unfolding lines_of
lines_of-Above lo d [] h = tt
lines_of-Above lo d (inl e ∷ chunks) h = tt
lines_of-Above lo d (inr bytes ∷ chunks) h =
    go (push d bytes) (push-Above lo d bytes h) (λ d' k. lines_of-Above lo d' chunks k)
  where
    go :
        (r : Decoded)
        → Above lo r
        → ((d' : CompleteLineDecoder)
            → lo ≤ d'.next_offset
            → All (λ l. lo < l.end_offset) (lines_of d' chunks))
        → All
            (λ l. lo < l.end_offset)
            (elim r [ inl e ↦ [] | inr (lines, d') ↦ lines ++ lines_of d' chunks ])
    go (inl e) k rest = tt
    go (inr (lines, d')) k rest =
        All-append (λ l. lo < l.end_offset) lines (lines_of d' chunks) k.0 (rest d' k.1)

none_flushed : (fs ws : List DecodedLine) → [] ≡ fs ++ ws → fs ≡ []
none_flushed [] ws h = refl
none_flushed (x ∷ fs) ws h = cc

module _ (R : Redis) (key_prefix skh : Text) (config : WorkerConfig) (mode : FileApplyMode)
    (v : View R.State) (f : Follows R key_prefix skh config mode v) (start : ℕ) (s0 : R.State) where
  abbrev Here : List DecodedLine → Loop → R.State → Type 0
  Here = At R key_prefix skh config mode v f start s0

  abbrev HereWith : CompleteLineDecoder → List DecodedLine → Loop → R.State → Type 0
  HereWith = AtWith R key_prefix skh config mode v f start s0

  apply_lines-At :
      (lines pre : List DecodedLine) (l : Loop) (s : R.State)
      → Here pre l s
      → Outcome
          (λ e t. AppliedPart v s0 (pre ++ lines) t)
          (λ m t. HereWith l.decoder (pre ++ lines) m t)
          (apply_lines R key_prefix skh config mode lines l s)
  unfolding apply_lines
  apply_lines-At [] pre l s p = (subst (λ ls. Here ls l s) (sym (append_nil pre)) p, refl)
  apply_lines-At (line ∷ lines) pre l s p =
      let all = pre ++ (line ∷ lines) in
      let one = pre ++ (line ∷ []) in
      then_with-Outcome (λ e t. AppliedPart v s0 all t) (λ m t. HereWith l.decoder one m t)
        (λ m t. HereWith l.decoder all m t) (apply_line R key_prefix skh config mode line l s)
        (apply_lines R key_prefix skh config mode lines)
        (Outcome-weaken _ (λ e t. AppliedPart v s0 all t) _ (λ m t. HereWith l.decoder one m t) _
          (λ e t k.
            subst (λ ls. AppliedPart v s0 ls t) (lines_assoc pre (line ∷ []) lines)
              (AppliedPart-more v s0 one lines t k))
          (λ m t k. k) (apply_line-At R key_prefix skh config mode v f start s0 pre line l s p))
        (λ m t k.
          Outcome-weaken _ (λ e u. AppliedPart v s0 all u) _ (λ n u. HereWith l.decoder all n u) _
            (λ e u h. subst (λ ls. AppliedPart v s0 ls u) (lines_assoc pre (line ∷ []) lines) h)
            (λ n u h.
              (subst (λ ls. Here ls n u) (lines_assoc pre (line ∷ []) lines) h.0, h.1 ∙ k.1))
            (apply_lines-At lines one m t k.0))

  stopped :
      (pre more : List DecodedLine) (l : Loop) (s : R.State)
      → Here pre l s
      → AppliedPart v s0 (pre ++ more) s
  stopped pre more l s p =
      AppliedUpTo-part v s0 p.flushed (p.waiting ++ more) (pre ++ more) s
        (ap (λ ls. ls ++ more) p.split ∙ lines_assoc p.flushed p.waiting more) p.applied

  abbrev Ends : List DecodedLine → (WorkerError ⊎ Loop) × R.State → Type 0
  Ends lines = Outcome (λ e t. AppliedPart v s0 lines t) (λ m t. Here lines m t)

  decoded-Ends :
      (chunks : List (WorkerError ⊎ Bytes)) (pre : List DecodedLine) (l : Loop) (s : R.State)
      → Here pre l s
      → (r : Decoded)
      → ((pre' : List DecodedLine) (l' : Loop) (t : R.State)
          → Here pre' l' t
          → Ends
              (pre' ++ lines_of l'.decoder chunks)
              (apply_chunks R key_prefix skh config mode chunks l' t))
      → Ends (pre ++ (elim r [ inl e ↦ [] | inr (lines, d') ↦ lines ++ lines_of d' chunks ])) (
          then_with
            (apply_decoded R key_prefix skh config mode r l s)
            (apply_chunks R key_prefix skh config mode chunks))
  unfolding apply_decoded
  decoded-Ends chunks pre l s p (inl e) rest = stopped pre [] l s p
  decoded-Ends chunks pre l s p (inr (lines, d')) rest =
      let l0 = record l { decoder = d' } in
      let all = pre ++ (lines ++ lines_of d' chunks) in
      then_with-Outcome (λ e t. AppliedPart v s0 all t) (λ m t. HereWith d' (pre ++ lines) m t)
        (λ m t. Here all m t) (apply_lines R key_prefix skh config mode lines l0 s)
        (apply_chunks R key_prefix skh config mode chunks)
        (Outcome-weaken _ (λ e t. AppliedPart v s0 all t) _ (λ m t. HereWith d' (pre ++ lines) m t)
          _
          (λ e t k.
            subst (λ ls. AppliedPart v s0 ls t) (lines_assoc pre lines (lines_of d' chunks))
              (AppliedPart-more v s0 (pre ++ lines) (lines_of d' chunks) t k))
          (λ m t k. k) (apply_lines-At lines pre l0 s p))
        (λ m t k.
          subst (λ ls. Ends ls (apply_chunks R key_prefix skh config mode chunks m t))
            (ap (λ d. (pre ++ lines) ++ lines_of d chunks) k.1
              ∙ lines_assoc pre lines (lines_of d' chunks))
            (rest (pre ++ lines) m t k.0))

  -- All the lines are applied, and the result tells their number and the end of the last one.
  abbrev pub Whole : List DecodedLine → StreamApplyResult → R.State → Type 0
  Whole lines r t =
      AppliedUpTo v s0 lines t
      × (r.checkpoint ≡ last_end start lines)
      × (r.lines ≡ length (changes_of lines))

  apply_chunks-Ends :
      (chunks : List (WorkerError ⊎ Bytes)) (pre : List DecodedLine) (l : Loop) (s : R.State)
      → Here pre l s
      → Ends
          (pre ++ lines_of l.decoder chunks)
          (apply_chunks R key_prefix skh config mode chunks l s)
  unfolding apply_chunks apply_chunk receive lines_of
  apply_chunks-Ends [] pre l s p = subst (λ ls. Here ls l s) (sym (append_nil pre)) p
  apply_chunks-Ends (inl e ∷ chunks) pre l s p = elim (Bool-cases (R.claim_lost s)) [
    | inl c ↦ rw (apply_chunks, apply_chunk, c) (stopped pre [] l s p)
    | inr c ↦ rw (apply_chunks, apply_chunk, c) (stopped pre [] l s p)
  ]
  apply_chunks-Ends (inr bytes ∷ chunks) pre l s p = elim (Bool-cases (R.claim_lost s)) [
    | inl c ↦ rw (apply_chunks, apply_chunk, c) (stopped pre _ l s p)
    | inr c ↦
        rw (apply_chunks, apply_chunk, c)
          (decoded-Ends chunks pre l s p (push l.decoder bytes)
            (λ pre' l' t p'. apply_chunks-Ends chunks pre' l' t p'))
  ]

  finish_batch-Outcome :
      (lines : List DecodedLine) (l : Loop) (s : R.State)
      → All (λ k. start < k.end_offset) lines
      → Here lines l s
      → Outcome
          (λ e t. AppliedPart v s0 lines t)
          (λ u t. AppliedUpTo v s0 lines t)
          (finish_batch R key_prefix skh config mode start l s)
  unfolding finish_batch
  finish_batch-Outcome [] l s h p = elim (Bool-cases (ltb start l.batch_checkpoint)) [
    | inl e ↦ absurd (ground (arith, p.offset))
    | inr e ↦
        rw (finish_batch, e)
          (subst (λ ls. AppliedUpTo v s0 ls s) (none_flushed p.flushed p.waiting p.split) p.applied)
  ]
  finish_batch-Outcome (k ∷ ks) l s h p = elim (Bool-cases (ltb start l.batch_checkpoint)) [
    | inl e ↦
        rw (finish_batch, e)
          (flush-Outcome R key_prefix skh config mode v f start s0 (k ∷ ks) l.batch
            l.batch_checkpoint l.applied_lines l.first_load_batch s p
            (stored_end-cons start (v.checkpoint s0) k ks
              ∙ ap (λ n. some (to_string n)) (sym p.offset)))
    | inr e ↦ absurd (not_past e (last_end-Above start (k ∷ ks) h))
  ]
    where
      not_past :
          ltb start l.batch_checkpoint ≡ false
          → (k ∷ ks ≡ []) ⊎ (start < last_end start (k ∷ ks))
          → ⊥
      not_past e (inl c) = cc
      not_past e (inr m) = ground (arith, p.offset)

  finish-Outcome :
      (lines : List DecodedLine) (l : Loop) (s : R.State)
      → All (λ k. start < k.end_offset) lines
      → Here lines l s
      → Outcome
          (λ e t. AppliedPart v s0 lines t)
          (Whole lines)
          (finish R key_prefix skh config mode start l s)
  unfolding finish
  finish-Outcome lines l s h p =
      then_with-Outcome (λ e t. AppliedPart v s0 lines t) (λ u t. AppliedUpTo v s0 lines t)
        (Whole lines) (finish_batch R key_prefix skh config mode start l s) _
        (finish_batch-Outcome lines l s h p) (λ u t a. (a, p.offset, p.count))

  pub apply_file_stream-Outcome :
      (chunks : List (WorkerError ⊎ Bytes))
      → Outcome
          (λ e t. AppliedPart v s0 (lines_of (new start) chunks) t)
          (Whole (lines_of (new start) chunks))
          (apply_file_stream R key_prefix skh config mode start (inr chunks) s0)
  unfolding apply_file_stream
  apply_file_stream-Outcome chunks =
      let lines = lines_of (new start) chunks in
      let loop : Loop = record {
        decoder = new start;
        batch = [];
        batch_checkpoint = start;
        applied_lines = 0;
        first_load_batch = true;
      } in
      then_with-Outcome (λ e t. AppliedPart v s0 lines t) (Here lines) (Whole lines)
        (apply_chunks R key_prefix skh config mode chunks loop s0)
        (finish R key_prefix skh config mode start)
        (apply_chunks-Ends chunks [] loop s0 (record {
          flushed = [];
          waiting = [];
          split = refl;
          batch = refl;
          offset = refl;
          count = refl;
          applied = record { members = λ rev x. refl; checkpoint = refl };
        }))
        (λ l t p.
          finish-Outcome lines l t (lines_of-Above start (new start) chunks (omega arith)) p)
