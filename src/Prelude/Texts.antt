-- ===== src/Prelude/Texts.antt =====
-- Rust strings as the lists of their characters, by code point: equality, the order of `str::cmp`
-- (which is that of the code points), and the decimal forms of `u64`, `u64::to_string` and
-- `str::parse::<u64>`.
use Prim.Native.Nat.{ℕ, zero, suc, ◌+◌, ◌-◌, ◌*◌, ◌/◌, ◌%◌, ◌≤◌, ◌<◌}
use Prim.Native.Char.{code}
use Prim.Native.String.{String}
use mathlib.Core.Path.{◌≡◌, refl, ap, ◌∙◌}
use mathlib.Core.Logic.{◌≢◌, inl, inr}
use mathlib.Core.Bool.{Bool, true, false, ◌&&◌}
use mathlib.Core.Option.{Option, none, some}
use mathlib.Core.List.{List, [], ◌∷◌}
use native.Mathlib.Omega.{arith}
use statsig_forward_proxy.Prelude.Tests.{ltb, leb, ◌==◌, if◌then◌else◌, Bool-cases}
use statsig_forward_proxy.Prelude.Keys.{Eq}
use statsig_forward_proxy.Prelude.Lists.{All, is_empty}

abbrev pub Text : Type 0
Text = List ℕ

-- The code points of a literal.
abbrev pub codes : String → Text
codes String.[] = []
codes (String.◌∷◌ c s) = code c ∷ codes s

abbrev pub text_beq : Text → Text → Bool
text_beq [] [] = true
text_beq [] (y ∷ ys) = false
text_beq (x ∷ xs) [] = false
text_beq (x ∷ xs) (y ∷ ys) = if x == y then text_beq xs ys else false

pub text_beq_refl : (a : Text) → text_beq a a ≡ true
text_beq_refl [] = refl
text_beq_refl (x ∷ xs) = ground (arith, text_beq_refl xs)

pub text_beq_sound : (a b : Text) → text_beq a b ≡ true → a ≡ b
text_beq_sound [] [] h = refl
text_beq_sound [] (y ∷ ys) h = cc
text_beq_sound (x ∷ xs) [] h = cc
text_beq_sound (x ∷ xs) (y ∷ ys) h = ground (arith, text_beq_sound xs ys)

pub text_beq_ne : (a b : Text) → text_beq a b ≡ false → a ≢ b
text_beq_ne a b h e = ground (arith, text_beq_refl a)

pub ne-text_beq : (a b : Text) → a ≢ b → text_beq a b ≡ false
ne-text_beq a b h = ground (arith, text_beq_sound a b)

pub text_beq_congr : (a b c : Text) → text_beq a b ≡ true → text_beq a c ≡ text_beq b c
text_beq_congr a b c h = ap (λ t. text_beq t c) (text_beq_sound a b h)

instance abbrev pub text_eq : Eq Text
text_eq = record { beq = text_beq; beq_refl = text_beq_refl; beq_congr = text_beq_congr }

-- `a <= b` in the order of `str::cmp`.
abbrev pub text_leb : Text → Text → Bool
text_leb [] b = true
text_leb (x ∷ xs) [] = false
text_leb (x ∷ xs) (y ∷ ys) = if ltb x y then true else if x == y then text_leb xs ys else false

pub text_leb_total : (a b : Text) → text_leb a b ≡ false → text_leb b a ≡ true
text_leb_total [] b h = cc
text_leb_total (x ∷ xs) [] h = refl
text_leb_total (x ∷ xs) (y ∷ ys) h = ground (arith, text_leb_total xs ys)

pub text_leb_trans :
    (a b c : Text) → text_leb a b ≡ true → text_leb b c ≡ true → text_leb a c ≡ true
text_leb_trans [] b c h k = refl
text_leb_trans (x ∷ xs) [] c h k = cc
text_leb_trans (x ∷ xs) (y ∷ ys) [] h k = cc
text_leb_trans (x ∷ xs) (y ∷ ys) (z ∷ zs) h k = ground (arith, text_leb_trans xs ys zs)

pub text_leb_antisymm : (a b : Text) → text_leb a b ≡ true → text_leb b a ≡ true → a ≡ b
text_leb_antisymm [] [] h k = refl
text_leb_antisymm [] (y ∷ ys) h k = cc
text_leb_antisymm (x ∷ xs) [] h k = cc
text_leb_antisymm (x ∷ xs) (y ∷ ys) h k = ground (arith, text_leb_antisymm xs ys)

-- The digits of `n` in front of `acc`. The fuel `suc n` of `to_string` is enough.
to_string_from : ℕ → ℕ → Text → Text
to_string_from zero n acc = acc
to_string_from (suc f) n acc =
    let rest = to_string_from f (n / 10) ((b'0' + n % 10) ∷ acc) in
    if ltb n 10 then (b'0' + n) ∷ acc else rest

unfoldable pub to_string : ℕ → Text
unfolding to_string_from
to_string n = to_string_from (suc n) n []

-- Digits up to the end, with the overflow check of each step.
unfoldable pub parse_digits : ℕ → ℕ → Text → Option ℕ
parse_digits limit acc [] = some acc
parse_digits limit acc (c ∷ cs) =
    let rest = parse_digits limit (acc * 10 + (c - b'0')) cs in
    if leb b'0' c && leb c b'9'
    then (if leb (acc * 10 + (c - b'0')) limit then rest else none)
    else none

-- One leading `+` is accepted, and some digit must follow.
unfoldable pub parse_uint : ℕ → Text → Option ℕ
unfolding parse_digits
parse_uint limit [] = none
parse_uint limit (c ∷ []) = parse_digits limit 0 (c ∷ [])
parse_uint limit (c ∷ d ∷ cs) =
    if c == b'+' then parse_digits limit 0 (d ∷ cs) else parse_digits limit 0 (c ∷ d ∷ cs)

parse-to_string_from :
    (limit f n : ℕ) (acc : Text)
    → n < f
    → n ≤ limit
    → parse_digits limit 0 (to_string_from f n acc) ≡ parse_digits limit n acc
unfolding to_string_from parse_digits
parse-to_string_from limit zero n acc h k = elim h [ ]
parse-to_string_from limit (suc f) n acc h k = elim (Bool-cases (ltb n 10)) [
  | inl small ↦ rw small (ground arith)
  | inr large ↦ rw large (
      parse-to_string_from limit f (n / 10) ((b'0' + n % 10) ∷ acc) (ground arith) (ground arith)
      ∙ ground arith)
]

head-to_string_from :
    (f n : ℕ) (acc : Text)
    → n < f
    → (c : ℕ) × (r : Text) × (to_string_from f n acc ≡ c ∷ r) × (b'0' ≤ c)
unfolding to_string_from
head-to_string_from zero n acc h = elim h [ ]
head-to_string_from (suc f) n acc h = elim (Bool-cases (ltb n 10)) [
  | inl small ↦ (b'0' + n, acc, rw small, omega arith)
  | inr large ↦ rw large (head-to_string_from f (n / 10) ((b'0' + n % 10) ∷ acc) (ground arith))
]

parse_uint-parse_digits :
    (limit : ℕ) (t : Text) (c : ℕ) (r : Text)
    → t ≡ c ∷ r
    → b'0' ≤ c
    → parse_uint limit t ≡ parse_digits limit 0 t
unfolding parse_uint
parse_uint-parse_digits limit [] c r e h = cc
parse_uint-parse_digits limit (x ∷ []) c r e h = refl
parse_uint-parse_digits limit (x ∷ y ∷ ys) c r e h = ground arith

-- A printed number is read back.
pub parse_uint-to_string : (limit n : ℕ) → n ≤ limit → parse_uint limit (to_string n) ≡ some n
unfolding to_string parse_digits
parse_uint-to_string limit n h =
    let (c, r, e, low) = head-to_string_from (suc n) n [] (omega arith) in
    parse_uint-parse_digits limit (to_string n) c r e low
    ∙ parse-to_string_from limit (suc n) n [] (omega arith) h

abbrev pub u64_max : ℕ
u64_max = 0xFFFF_FFFF_FFFF_FFFF

abbrev pub u32_max : ℕ
u32_max = 0xFFFF_FFFF

unfoldable pub parse_u64 : Text → Option ℕ
unfolding parse_uint
parse_u64 = parse_uint u64_max

unfoldable pub parse_u32 : Text → Option ℕ
unfolding parse_uint
parse_u32 = parse_uint u32_max

pub parse_u64-to_string : (n : ℕ) → n ≤ u64_max → parse_u64 (to_string n) ≡ some n
unfolding parse_u64
parse_u64-to_string = parse_uint-to_string u64_max

pub parse_u32-to_string : (n : ℕ) → n ≤ u32_max → parse_u32 (to_string n) ≡ some n
unfolding parse_u32
parse_u32-to_string = parse_uint-to_string u32_max

pub to_string-injective : (m n : ℕ) → to_string m ≡ to_string n → m ≡ n
to_string-injective m n e = ground (
  arith,
  parse_uint-to_string (m + n) m (omega arith),
  parse_uint-to_string (m + n) n (omega arith),
  ap (parse_uint (m + n)) e,
)

to_string_from-digits :
    (f n : ℕ) (acc : Text)
    → All (λ c. (b'0' ≤ c) × (c ≤ b'9')) acc
    → All (λ c. (b'0' ≤ c) × (c ≤ b'9')) (to_string_from f n acc)
unfolding to_string_from
to_string_from-digits zero n acc h = h
to_string_from-digits (suc f) n acc h = elim (Bool-cases (ltb n 10)) [
  | inl small ↦ rw small ((ground arith, ground arith), h)
  | inr large ↦
      rw large
        (to_string_from-digits f (n / 10) ((b'0' + n % 10) ∷ acc) ((omega arith, omega arith), h))
]

pub to_string-digits : (n : ℕ) → All (λ c. (b'0' ≤ c) × (c ≤ b'9')) (to_string n)
unfolding to_string
to_string-digits n = to_string_from-digits (suc n) n [] tt

to_string_from-cons : (f n c : ℕ) (acc : Text) → is_empty (to_string_from f n (c ∷ acc)) ≡ false
unfolding to_string_from
to_string_from-cons zero n c acc = refl
to_string_from-cons (suc f) n c acc =
    ground (arith, to_string_from-cons f (n / 10) (b'0' + n % 10) (c ∷ acc))

pub is_empty-to_string : (n : ℕ) → is_empty (to_string n) ≡ false
unfolding to_string to_string_from
is_empty-to_string n = ground (arith, to_string_from-cons n (n / 10) (b'0' + n % 10) [])
