-- ===== src/Prelude/Split.antt =====
-- `str::split` on a character, `split_once`, `strip_prefix`, `trim` and the ASCII lower case.
use Prim.Native.Nat.{ℕ, ◌+◌}
use mathlib.Core.Bool.{Bool, ◌&&◌, ◌||◌}
use mathlib.Core.Option.{Option, none, some}
use mathlib.Core.List.{List, [], ◌∷◌, ◌++◌, reverse}
use statsig_forward_proxy.Prelude.Tests.{leb, ◌==◌, if◌then◌else◌}
use statsig_forward_proxy.Prelude.Texts.{Text}

-- `str::split(c)`: the pieces between the separators; the empty text has one empty piece.
abbrev add_to_first : ℕ → List Text → List Text
add_to_first x [] = (x ∷ []) ∷ []
add_to_first x (t ∷ ts) = (x ∷ t) ∷ ts

unfoldable pub split : ℕ → Text → List Text
split sep [] = [] ∷ []
split sep (x ∷ xs) = if x == sep then [] ∷ split sep xs else add_to_first x (split sep xs)

-- `[&str]::join(",")`, with the separator as a text.
unfoldable pub join : Text → List Text → Text
join sep [] = []
join sep (t ∷ []) = t
join sep (t ∷ u ∷ ts) = t ++ (sep ++ join sep (u ∷ ts))

-- `str::strip_prefix`.
unfoldable pub strip_prefix : Text → Text → Option Text
strip_prefix [] t = some t
strip_prefix (p ∷ ps) [] = none
strip_prefix (p ∷ ps) (x ∷ xs) = if p == x then strip_prefix ps xs else none

-- `char::is_whitespace`, the characters of Unicode's White_Space.
unfoldable pub is_whitespace : ℕ → Bool
is_whitespace c =
    (leb 9 c && leb c 13)
    || (c == 32)
    || (c == 0x85)
    || (c == 0xA0)
    || (c == 0x1680)
    || (leb 0x2000 c && leb c 0x200A)
    || (c == 0x2028)
    || (c == 0x2029)
    || (c == 0x202F)
    || (c == 0x205F)
    || (c == 0x3000)

unfoldable pub trim_start : Text → Text
unfolding is_whitespace
trim_start [] = []
trim_start (x ∷ xs) = if is_whitespace x then trim_start xs else x ∷ xs

unfoldable pub trim : Text → Text
unfolding trim_start
trim t = reverse (trim_start (reverse (trim_start t)))

unfoldable pub to_ascii_lowercase : Text → Text
to_ascii_lowercase [] = []
to_ascii_lowercase (x ∷ xs) =
    (if leb b'A' x && leb x b'Z' then x + 32 else x) ∷ to_ascii_lowercase xs
