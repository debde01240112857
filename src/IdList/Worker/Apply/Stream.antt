-- ===== src/IdList/Worker/Apply/Stream.antt =====
-- The loop of `apply_file_stream`: what it leaves of any view of Redis that a batch changes as its
-- lines say.
use mathlib.Core.Logic.{inl, inr}
use statsig_forward_proxy.Prelude.{
  ℕ, ◌+◌, ◌≡◌, ◌∙◌, refl, sym, ap, Bool, Option, none, some, true, false, List, [], ◌∷◌, ◌++◌, ◌⊎◌,
  Text, length, length-append, leb, to_string, Bool-cases,
}
use statsig_forward_proxy.IdList.Parser.Decoder.{
  Bytes, FileChange, DecodedLine, CompleteLineDecoder, push,
}
use statsig_forward_proxy.IdList.Worker.Redis.{Redis}
use statsig_forward_proxy.IdList.Worker.Config.{WorkerConfig}
use statsig_forward_proxy.IdList.Worker.Step.{
  WorkerError, Outcome, Outcome-weaken, then_with-Outcome,
}
use statsig_forward_proxy.IdList.Worker.Apply.{
  FileApplyMode, Loop, add_line, apply_file_batch, apply_line,
}
use statsig_forward_proxy.IdList.Worker.Apply.Batches.{last_line, last_line-append}
use statsig_forward_proxy.IdList.Worker.Apply.Cut.{Near}
use statsig_forward_proxy.IdList.Worker.Apply.Lines.{
  change_list, changes_of, changes_of-append, last_end, last_end-snoc, stored_end, stored_end-snoc,
  append_nil, append_assoc, lines_assoc, add_line-batch, add_line-checkpoint, add_line-count,
}

-- The lines that are decoded before the first error of the stream or of the decoder.
unfoldable pub lines_of : CompleteLineDecoder → List (WorkerError ⊎ Bytes) → List DecodedLine
lines_of d [] = []
lines_of d (inl e ∷ chunks) = []
lines_of d (inr bytes ∷ chunks) = elim (push d bytes) [
  | inl e ↦ []
  | inr (lines, d') ↦ lines ++ lines_of d' chunks
]

-- The parts of Redis that the loop changes: the members, in the forward set and in the reverse index
-- (`true`), and the stored checkpoint.
pub record View (State : Type 0) : Type 0 where
  pub members : State → Bool → Text → Bool
  pub checkpoint : State → Option Text

-- The lines of `flushed`, and no others, are applied to the state `s`, and the stored checkpoint is
-- the end of the last of them.
pub record AppliedUpTo {State : Type 0} (v : View State) (s : State) (flushed : List DecodedLine)
    (t : State) : Type 0 where
  pub members :
      (rev : Bool) (x : Text)
      → v.members t rev x ≡ last_line x (changes_of flushed) (v.members s rev x)
  pub checkpoint : v.checkpoint t ≡ stored_end (v.checkpoint s) flushed

-- A batch that broke off before its checkpoint: the forward set and the reverse index have got the
-- changes of a prefix each, the reverse index at most one more.
pub record Ahead {State : Type 0} (v : View State) (changes : List FileChange) (s t : State)
    : Type 0 where
  pub ahead : Bool → List FileChange
  pub later : Bool → List FileChange
  pub begun : (rev : Bool) → changes ≡ ahead rev ++ later rev
  pub near : Near (ahead false) (ahead true)
  pub members :
      (rev : Bool) (x : Text) → v.members t rev x ≡ last_line x (ahead rev) (v.members s rev x)
  pub checkpoint : v.checkpoint t ≡ v.checkpoint s

pub record Done {State : Type 0} (v : View State) (changes : List FileChange) (end : ℕ)
    (s t : State) : Type 0 where
  pub members :
      (rev : Bool) (x : Text) → v.members t rev x ≡ last_line x changes (v.members s rev x)
  pub checkpoint : v.checkpoint t ≡ some (to_string end)

-- Where an error ended the stream: the lines of `flushed` are applied, and the stored checkpoint is the
-- end of the last of them; of the changes of the lines behind it the forward set and the reverse
-- index have got a prefix each, the reverse index the same or one change more.
pub record AppliedPart {State : Type 0} (v : View State) (s : State) (lines : List DecodedLine)
    (t : State) : Type 0 where
  pub flushed : List DecodedLine
  pub rest : List DecodedLine
  pub split : lines ≡ flushed ++ rest
  pub ahead : Bool → List FileChange
  pub later : Bool → List FileChange
  pub begun : (rev : Bool) → changes_of rest ≡ ahead rev ++ later rev
  pub near : Near (ahead false) (ahead true)
  pub members :
      (rev : Bool) (x : Text)
      → v.members t rev x ≡ last_line x (changes_of flushed ++ ahead rev) (v.members s rev x)
  pub checkpoint : v.checkpoint t ≡ stored_end (v.checkpoint s) flushed

pub add_line-decoder : (line : DecodedLine) (l : Loop) → (add_line line l).decoder ≡ l.decoder
unfolding add_line
add_line-decoder line l = go line.change
  where
    go : (c : Option FileChange) → (add_line (record line { change = c }) l).decoder ≡ l.decoder
    go none = refl
    go (some c) = refl

module _ {State : Type 0} (v : View State) (s : State) where
  pub AppliedUpTo-part :
      (flushed rest lines : List DecodedLine) (t : State)
      → lines ≡ flushed ++ rest
      → AppliedUpTo v s flushed t
      → AppliedPart v s lines t
  AppliedUpTo-part flushed rest lines t e a = record {
    flushed = flushed;
    rest = rest;
    split = e;
    ahead = λ rev. [];
    later = λ rev. changes_of rest;
    begun = λ rev. refl;
    near = inl refl;
    members = λ rev x.
        a.members rev x
        ∙ ap (λ cs. last_line x cs (v.members s rev x)) (sym (append_nil (changes_of flushed)));
    checkpoint = a.checkpoint;
  }

  pub AppliedPart-more :
      (lines more : List DecodedLine) (t : State)
      → AppliedPart v s lines t
      → AppliedPart v s (lines ++ more) t
  AppliedPart-more lines more t p = record {
    flushed = p.flushed;
    rest = p.rest ++ more;
    split = ap (λ ls. ls ++ more) p.split ∙ lines_assoc p.flushed p.rest more;
    ahead = p.ahead;
    later = λ rev. p.later rev ++ changes_of more;
    begun = λ rev.
        changes_of-append p.rest more
        ∙ (ap (λ cs. cs ++ changes_of more) (p.begun rev)
            ∙ append_assoc (p.ahead rev) (p.later rev) (changes_of more));
    near = p.near;
    members = p.members;
    checkpoint = p.checkpoint;
  }

module _ (R : Redis) (key_prefix skh : Text) (config : WorkerConfig) (mode : FileApplyMode)
    (v : View R.State) where
  -- A batch changes the view as its lines say and stores the checkpoint that it is given, or breaks off.
  abbrev pub Follows : Type 0
  Follows =
      (changes : List FileChange) (checkpoint : ℕ) (first : Bool) (s : R.State)
      → Outcome (λ e t. Ahead v changes s t ⊎ Done v changes checkpoint s t)
          (λ u t. Done v changes checkpoint s t)
          (apply_file_batch R key_prefix skh config mode changes checkpoint first s)

module _ (R : Redis) (key_prefix skh : Text) (config : WorkerConfig) (mode : FileApplyMode)
    (v : View R.State) (f : Follows R key_prefix skh config mode v) (start : ℕ) (s0 : R.State) where
  -- The state of the loop after `lines`: those of the batch are not applied yet.
  pub record Progress (lines : List DecodedLine) (queue : List FileChange) (end lines_count : ℕ)
      (s : R.State) : Type 0 where
    pub flushed : List DecodedLine
    pub waiting : List DecodedLine
    pub split : lines ≡ flushed ++ waiting
    pub batch : changes_of waiting ≡ queue
    pub offset : end ≡ last_end start lines
    pub count : lines_count ≡ length (changes_of lines)
    pub applied : AppliedUpTo v s0 flushed s

  abbrev pub At : List DecodedLine → Loop → R.State → Type 0
  At lines l s = Progress lines l.batch l.batch_checkpoint l.applied_lines s

  -- The whole of the lines, once the batch is written.
  pub flush-AppliedUpTo :
      (lines : List DecodedLine) (batch : List FileChange) (checkpoint count : ℕ) (s t : R.State)
      → Progress lines batch checkpoint count s
      → stored_end (v.checkpoint s0) lines ≡ some (to_string checkpoint)
      → Done v batch checkpoint s t
      → AppliedUpTo v s0 lines t
  flush-AppliedUpTo lines batch checkpoint count s t p h d = record {
    members = λ rev x.
        d.members rev x
        ∙ (ap (last_line x batch) (p.applied.members rev x)
            ∙ (ap (λ b. last_line x b (last_line x (changes_of p.flushed) (v.members s0 rev x)))
                  (sym p.batch)
                ∙ (sym (last_line-append x (changes_of p.flushed) (changes_of p.waiting) _)
                    ∙ ap (λ cs. last_line x cs (v.members s0 rev x))
                        (sym (changes_of-append p.flushed p.waiting)
                          ∙ ap changes_of (sym p.split)))));
    checkpoint = d.checkpoint ∙ sym h;
  }

  break-AppliedPart :
      (lines : List DecodedLine) (batch : List FileChange) (checkpoint count : ℕ) (s t : R.State)
      → Progress lines batch checkpoint count s
      → Ahead v batch s t
      → AppliedPart v s0 lines t
  break-AppliedPart lines batch checkpoint count s t p a = record {
    flushed = p.flushed;
    rest = p.waiting;
    split = p.split;
    ahead = a.ahead;
    later = a.later;
    begun = λ rev. p.batch ∙ a.begun rev;
    near = a.near;
    members = λ rev x.
        a.members rev x
        ∙ (ap (last_line x (a.ahead rev)) (p.applied.members rev x)
            ∙ sym (last_line-append x (changes_of p.flushed) (a.ahead rev) _));
    checkpoint = a.checkpoint ∙ p.applied.checkpoint;
  }

  -- A batch with all the lines that are not applied yet.
  pub flush-Outcome :
      (lines : List DecodedLine) (batch : List FileChange) (checkpoint count : ℕ) (first : Bool)
      (s : R.State)
      → Progress lines batch checkpoint count s
      → stored_end (v.checkpoint s0) lines ≡ some (to_string checkpoint)
      → Outcome
          (λ e t. AppliedPart v s0 lines t)
          (λ u t. AppliedUpTo v s0 lines t)
          (apply_file_batch R key_prefix skh config mode batch checkpoint first s)
  flush-Outcome lines batch checkpoint count first s p h =
      Outcome-weaken _ (λ e t. AppliedPart v s0 lines t) _ (λ u t. AppliedUpTo v s0 lines t) _
        (λ e t k. elim k [
          | inl a ↦ break-AppliedPart lines batch checkpoint count s t p a
          | inr d ↦
              AppliedUpTo-part v s0 lines [] lines t (sym (append_nil lines))
                (flush-AppliedUpTo lines batch checkpoint count s t p h d)
        ])
        (λ u t d. flush-AppliedUpTo lines batch checkpoint count s t p h d)
        (f batch checkpoint first s)

  add_line-At :
      (lines : List DecodedLine) (line : DecodedLine) (l : Loop) (s : R.State)
      → At lines l s
      → At (lines ++ (line ∷ [])) (add_line line l) s
  add_line-At lines line l s p = record {
    flushed = p.flushed;
    waiting = p.waiting ++ (line ∷ []);
    split = ap (λ ls. ls ++ (line ∷ [])) p.split ∙ lines_assoc p.flushed p.waiting (line ∷ []);
    batch =
        changes_of-append p.waiting (line ∷ [])
        ∙ (ap (λ b. b ++ changes_of (line ∷ [])) p.batch
            ∙ (ap (λ c. l.batch ++ c) (append_nil (change_list line.change))
                ∙ sym (add_line-batch line l)));
    offset = add_line-checkpoint line l ∙ sym (last_end-snoc start lines line);
    count =
        add_line-count line l
        ∙ (ap (λ n. n + length (change_list line.change)) p.count
            ∙ sym (
                ap length (changes_of-append lines (line ∷ []))
                ∙ (length-append (changes_of lines) (changes_of (line ∷ []))
                    ∙ ap (λ c. length (changes_of lines) + length c)
                        (append_nil (change_list line.change)))));
    applied = p.applied;
  }

  -- The state of the loop, and the decoder, which a line leaves as it is.
  abbrev pub AtWith : CompleteLineDecoder → List DecodedLine → Loop → R.State → Type 0
  AtWith d lines l s = At lines l s × (l.decoder ≡ d)

  pub apply_line-At :
      (lines : List DecodedLine) (line : DecodedLine) (l : Loop) (s : R.State)
      → At lines l s
      → Outcome
          (λ e t. AppliedPart v s0 (lines ++ (line ∷ [])) t)
          (λ m t. AtWith l.decoder (lines ++ (line ∷ [])) m t)
          (apply_line R key_prefix skh config mode line l s)
  unfolding apply_line
  apply_line-At lines line l s p =
      let m = add_line line l in
      let q = add_line-At lines line l s p in
      let all = lines ++ (line ∷ []) in
      elim (Bool-cases (leb config.pipeline_batch_size (length m.batch))) [
        | inl e ↦
            rw (apply_line, e)
              (then_with-Outcome (λ e t. AppliedPart v s0 all t) (λ u t. AppliedUpTo v s0 all t)
                (λ m t. AtWith l.decoder all m t)
                (apply_file_batch R key_prefix skh config mode m.batch m.batch_checkpoint
                  m.first_load_batch s)
                _
                (flush-Outcome all m.batch m.batch_checkpoint m.applied_lines m.first_load_batch s q
                  (stored_end-snoc (v.checkpoint s0) lines line
                    ∙ ap (λ n. some (to_string n)) (sym (add_line-checkpoint line l))))
                (λ u t a. (
                  record {
                    flushed = all;
                    waiting = [];
                    split = sym (append_nil all);
                    batch = refl;
                    offset = q.offset;
                    count = q.count;
                    applied = a;
                  },
                  add_line-decoder line l,
                )))
        | inr e ↦ rw (apply_line, e) (q, add_line-decoder line l)
      ]
