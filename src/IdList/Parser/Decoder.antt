-- ===== src/IdList/Parser/Decoder.antt =====
-- `CompleteLineDecoder` and `parse_change_line`.
use mathlib.Core.Logic.{inl, inr}
use statsig_forward_proxy.Prelude.{
  ℕ, ◌+◌, Bool, true, false, ◌&&◌, not, Option, none, some, List, [], ◌∷◌, ◌++◌, ◌⊎◌, ltb, leb,
  ◌==◌, if◌then◌else◌, length, is_empty,
}

abbrev pub Bytes : Type 0
Bytes = List ℕ

-- `WorkerError::InvalidFile`, by its message.
pub data InvalidFile : Type 0 where
  empty_line : InvalidFile
  invalid_prefix : ℕ → InvalidFile
  empty_member : InvalidFile
  not_utf8 : InvalidFile

pub record FileChange : Type 0 where
  pub add : Bool
  pub member : Bytes

pub record DecodedLine : Type 0 where
  pub change : Option FileChange
  pub end_offset : ℕ

pub record CompleteLineDecoder : Type 0 where
  pub pending : Bytes
  pub next_offset : ℕ

abbrev pub new : ℕ → CompleteLineDecoder
new start = record { pending = []; next_offset = start }

abbrev within : ℕ → ℕ → ℕ → Bool
within lo hi b = leb lo b && leb b hi

-- The ranges of the bytes that must follow a first byte in UTF-8.
abbrev continuation : ℕ → Option (List (ℕ × ℕ))
continuation b =
    if ltb b 0x80
    then some []
    else if within 0xC2 0xDF b
    then some ((0x80, 0xBF) ∷ [])
    else if b == 0xE0
    then some ((0xA0, 0xBF) ∷ (0x80, 0xBF) ∷ [])
    else if b == 0xED
    then some ((0x80, 0x9F) ∷ (0x80, 0xBF) ∷ [])
    else if within 0xE1 0xEF b
    then some ((0x80, 0xBF) ∷ (0x80, 0xBF) ∷ [])
    else if b == 0xF0
    then some ((0x90, 0xBF) ∷ (0x80, 0xBF) ∷ (0x80, 0xBF) ∷ [])
    else if within 0xF1 0xF3 b
    then some ((0x80, 0xBF) ∷ (0x80, 0xBF) ∷ (0x80, 0xBF) ∷ [])
    else if b == 0xF4
    then some ((0x80, 0x8F) ∷ (0x80, 0xBF) ∷ (0x80, 0xBF) ∷ [])
    else none

-- Whether `String::from_utf8` succeeds; the first argument holds the ranges still due.
unfoldable pub utf8_from : List (ℕ × ℕ) → Bytes → Bool
utf8_from [] [] = true
utf8_from (r ∷ rs) [] = false
utf8_from (r ∷ rs) (b ∷ bs) = let rest = utf8_from rs bs in if within r.0 r.1 b then rest else false
utf8_from [] (b ∷ bs) = elim (continuation b) [ none ↦ false | some rs ↦ utf8_from rs bs ]

abbrev pub is_utf8 : Bytes → Bool
is_utf8 = utf8_from []

change_of : Bool → Bytes → InvalidFile ⊎ FileChange
change_of add member =
    if is_empty member
    then inl empty_member
    else if is_utf8 member
    then inr (record { add = add; member = member })
    else inl not_utf8

unfoldable pub parse_change_line : Bytes → InvalidFile ⊎ FileChange
unfolding change_of
parse_change_line [] = inl empty_line
parse_change_line (prefix ∷ member) =
    if prefix == b'+'
    then change_of true member
    else if prefix == b'-'
    then change_of false member
    else inl (invalid_prefix prefix)

-- The line less a `\r` at its end.
abbrev pub strip_cr : Bytes → Bytes
strip_cr [] = []
strip_cr (c ∷ []) = if c == 13 then [] else c ∷ []
strip_cr (c ∷ d ∷ s) = c ∷ strip_cr (d ∷ s)

-- `(!line.is_empty()).then(|| parse_change_line(line)).transpose()`.
unfoldable pub line_change : Bytes → InvalidFile ⊎ Option FileChange
unfolding parse_change_line
line_change line =
    if is_empty line
    then inr none
    else elim (parse_change_line line) [ inl e ↦ inl e | inr c ↦ inr (some c) ]

abbrev pub Decoded : Type 0
Decoded = InvalidFile ⊎ (List DecodedLine × CompleteLineDecoder)

-- A decoded line in front of what the rest of the buffer gives; the first error ends the loop.
abbrev pub with_line : ℕ → InvalidFile ⊎ Option FileChange → Decoded → Decoded
with_line end_offset (inl e) rest = inl e
with_line end_offset (inr change) (inl e) = inl e
with_line end_offset (inr change) (inr (decoded, d)) =
    inr (record { change = change; end_offset = end_offset } ∷ decoded, d)

-- The loop of `push` over the buffer. `line` holds the bytes since the cursor, which is at the
-- offset `cursor` of the file; bytes after the last newline stay pending.
unfoldable pub decode_from : ℕ → Bytes → Bytes → Decoded
unfolding line_change
decode_from cursor line [] = inr ([], record { pending = line; next_offset = cursor })
decode_from cursor line (b ∷ bs) =
    let end_offset = cursor + length line + 1 in
    let after = decode_from end_offset [] bs in
    let longer = decode_from cursor (line ++ (b ∷ [])) bs in
    if b == b'\n' then with_line end_offset (line_change (strip_cr line)) after else longer

unfoldable pub push : CompleteLineDecoder → Bytes → Decoded
unfolding decode_from
push d chunk = decode_from d.next_offset [] (d.pending ++ chunk)

unfoldable pub has_partial_line : CompleteLineDecoder → Bool
has_partial_line d = not (is_empty d.pending)
