-- ===== src/IdList/Worker/Apply/Lines.antt =====
-- The decoded lines of a stream: their changes, their end offsets, and what the decoder promises.
use mathlib.Core.Logic.{inl, inr}
use statsig_forward_proxy.Prelude.{
  ℕ, ◌+◌, ◌≡◌, ◌<◌, ◌≤◌, ◌∙◌, refl, sym, ap, Option, none, some, List, [], ◌∷◌, ◌++◌, ◌⊎◌, arith,
  Text, All, length, ◌==◌, to_string, Bool-cases,
}
use statsig_forward_proxy.IdList.Parser.Decoder.{
  Bytes, InvalidFile, FileChange, DecodedLine, CompleteLineDecoder, Decoded, push, with_line,
  decode_from, line_change, strip_cr,
}
use statsig_forward_proxy.IdList.Worker.Apply.{Loop, add_line}

abbrev pub change_list : Option FileChange → List FileChange
change_list none = []
change_list (some c) = c ∷ []

-- The changes of the lines, less the empty lines.
abbrev pub changes_of : List DecodedLine → List FileChange
changes_of [] = []
changes_of (l ∷ ls) = change_list l.change ++ changes_of ls

-- The end offset of the last line.
abbrev pub last_end : ℕ → List DecodedLine → ℕ
last_end start [] = start
last_end start (l ∷ ls) = last_end l.end_offset ls

-- The checkpoint that is stored after the lines: the end of the last one.
abbrev pub stored_end : Option Text → List DecodedLine → Option Text
stored_end old [] = old
stored_end old (l ∷ ls) = stored_end (some (to_string l.end_offset)) ls

pub append_assoc : (xs ys zs : List FileChange) → (xs ++ ys) ++ zs ≡ xs ++ (ys ++ zs)
append_assoc [] ys zs = refl
append_assoc (x ∷ xs) ys zs = ap (λ l. x ∷ l) (append_assoc xs ys zs)

pub append_nil : {A : Type 0} (xs : List A) → xs ++ [] ≡ xs
append_nil [] = refl
append_nil (x ∷ xs) = ap (λ l. x ∷ l) (append_nil xs)

pub lines_assoc : (xs ys zs : List DecodedLine) → (xs ++ ys) ++ zs ≡ xs ++ (ys ++ zs)
lines_assoc [] ys zs = refl
lines_assoc (x ∷ xs) ys zs = ap (λ l. x ∷ l) (lines_assoc xs ys zs)

pub changes_of-append :
    (xs ys : List DecodedLine) → changes_of (xs ++ ys) ≡ changes_of xs ++ changes_of ys
changes_of-append [] ys = refl
changes_of-append (x ∷ xs) ys =
    ap (λ l. change_list x.change ++ l) (changes_of-append xs ys)
    ∙ sym (append_assoc (change_list x.change) (changes_of xs) (changes_of ys))

pub last_end-snoc :
    (start : ℕ) (ls : List DecodedLine) (l : DecodedLine)
    → last_end start (ls ++ (l ∷ [])) ≡ l.end_offset
last_end-snoc start [] l = refl
last_end-snoc start (k ∷ ls) l = last_end-snoc k.end_offset ls l

pub stored_end-snoc :
    (old : Option Text) (ls : List DecodedLine) (l : DecodedLine)
    → stored_end old (ls ++ (l ∷ [])) ≡ some (to_string l.end_offset)
stored_end-snoc old [] l = refl
stored_end-snoc old (k ∷ ls) l = stored_end-snoc (some (to_string k.end_offset)) ls l

pub add_line-batch :
    (line : DecodedLine) (loop : Loop)
    → (add_line line loop).batch ≡ loop.batch ++ change_list line.change
unfolding add_line
add_line-batch line loop = go line.change
  where
    go :
        (c : Option FileChange)
        → (add_line (record line { change = c }) loop).batch ≡ loop.batch ++ change_list c
    go none = sym (append_nil loop.batch)
    go (some c) = refl

pub add_line-checkpoint :
    (line : DecodedLine) (loop : Loop) → (add_line line loop).batch_checkpoint ≡ line.end_offset
unfolding add_line
add_line-checkpoint line loop = go line.change
  where
    go :
        (c : Option FileChange)
        → (add_line (record line { change = c }) loop).batch_checkpoint ≡ line.end_offset
    go none = refl
    go (some c) = refl

pub add_line-count :
    (line : DecodedLine) (loop : Loop)
    → (add_line line loop).applied_lines ≡ loop.applied_lines + length (change_list line.change)
unfolding add_line
add_line-count line loop = go line.change
  where
    go :
        (c : Option FileChange)
        → (add_line (record line { change = c }) loop).applied_lines
          ≡ loop.applied_lines + length (change_list c)
    go none = omega arith
    go (some c) = omega arith

-- Every line ends behind `lo`, and so does what is still to come.
abbrev pub Above : ℕ → Decoded → Type 0
Above lo (inl e) = Unit
Above lo (inr (ls, d)) = All (λ l. lo < l.end_offset) ls × (lo ≤ d.next_offset)

Above-with_line :
    (lo n : ℕ) (c : InvalidFile ⊎ Option FileChange) (r : Decoded)
    → lo < n
    → Above lo r
    → Above lo (with_line n c r)
Above-with_line lo n (inl e) r h k = tt
Above-with_line lo n (inr c) (inl e) h k = tt
Above-with_line lo n (inr c) (inr (ls, d)) h k = ((h, k.0), k.1)

decode_from-Above :
    (lo cursor : ℕ) (line bs : Bytes) → lo ≤ cursor → Above lo (decode_from cursor line bs)
unfolding decode_from
decode_from-Above lo cursor line [] h = (tt, h)
decode_from-Above lo cursor line (b ∷ bs) h = elim (Bool-cases (b == b'\n')) [
  | inl e ↦
      rw (decode_from, e)
        (Above-with_line lo (cursor + length line + 1) (line_change (strip_cr line))
          (decode_from (cursor + length line + 1) [] bs) (omega arith)
          (decode_from-Above lo (cursor + length line + 1) [] bs (omega arith)))
  | inr e ↦ rw (decode_from, e) (decode_from-Above lo cursor (line ++ (b ∷ [])) bs h)
]

pub push-Above :
    (lo : ℕ) (d : CompleteLineDecoder) (chunk : Bytes)
    → lo ≤ d.next_offset
    → Above lo (push d chunk)
unfolding push
push-Above lo d chunk h = decode_from-Above lo d.next_offset [] (d.pending ++ chunk) h

-- Lines behind `start` are none, or the last of them ends behind it.
pub last_end-Above :
    (start : ℕ) (ls : List DecodedLine)
    → All (λ l. start < l.end_offset) ls
    → (ls ≡ []) ⊎ (start < last_end start ls)
last_end-Above start [] h = inl refl
last_end-Above start (l ∷ []) h = inr h.0
last_end-Above start (l ∷ k ∷ ls) h = inr (cons_Above (last_end-Above start (k ∷ ls) h.1))
  where
    cons_Above : (k ∷ ls ≡ []) ⊎ (start < last_end start (k ∷ ls)) → start < last_end start (k ∷ ls)
    cons_Above (inl e) = cc
    cons_Above (inr m) = m

pub stored_end-cons :
    (start : ℕ) (old : Option Text) (l : DecodedLine) (ls : List DecodedLine)
    → stored_end old (l ∷ ls) ≡ some (to_string (last_end start (l ∷ ls)))
stored_end-cons start old l [] = refl
stored_end-cons start old l (k ∷ ls) = stored_end-cons start (some (to_string l.end_offset)) k ls
