-- ===== src/Encoding.antt =====
-- `utils/compress_encoder.rs`: the content encodings, their names and their order of preference.
pub mod Accept
pub mod Laws
pub mod Preference
use statsig_forward_proxy.Prelude.{
  ℕ, ◌≡◌, refl, Bool, Option, none, some, Text, codes, text_beq, ◌==◌, ◌||◌, if◌then◌else◌,
  to_ascii_lowercase, leb,
}

pub data CompressionEncoder : Type 0 where
  plain_text gzip brotli statsig_brotli deflate compress identity zstd : CompressionEncoder

-- The derived `PartialEq` compares the positions in the declaration.
unfoldable pub discriminant : CompressionEncoder → ℕ
discriminant plain_text = 0
discriminant gzip = 1
discriminant brotli = 2
discriminant statsig_brotli = 3
discriminant deflate = 4
discriminant compress = 5
discriminant identity = 6
discriminant zstd = 7

unfoldable pub encoding_eq : CompressionEncoder → CompressionEncoder → Bool
unfolding discriminant
encoding_eq a b = discriminant a == discriminant b

-- `Display`.
unfoldable pub fmt : CompressionEncoder → Text
fmt plain_text = codes "plain_text"
fmt gzip = codes "gzip"
fmt brotli = codes "br"
fmt statsig_brotli = codes "statsig-br"
fmt deflate = codes "deflate"
fmt compress = codes "compress"
fmt identity = codes "identity"
fmt zstd = codes "zstd"

-- `FromStr`. Lowering the ASCII letters is enough: `to_lowercase` turns no other character into a
-- letter of these names.
unfoldable pub from_str : Text → Option CompressionEncoder
unfolding to_ascii_lowercase
from_str s =
    let t = to_ascii_lowercase s in
    if text_beq t (codes "gzip") || text_beq t (codes "x-gzip")
    then some gzip
    else if text_beq t (codes "br")
    then some brotli
    else if text_beq t (codes "statsig_br") || text_beq t (codes "statsig-br")
    then some statsig_brotli
    else if text_beq t (codes "deflate")
    then some deflate
    else if text_beq t (codes "compress")
    then some compress
    else if text_beq t (codes "identity")
    then some identity
    else if text_beq t (codes "zstd")
    then some zstd
    else if text_beq t (codes "plain_text")
    then some plain_text
    else none

unfoldable pub encoding_priority : CompressionEncoder → ℕ
encoding_priority statsig_brotli = 0
encoding_priority gzip = 1
encoding_priority brotli = 2
encoding_priority zstd = 3
encoding_priority deflate = 4
encoding_priority compress = 5
encoding_priority identity = 6
encoding_priority plain_text = 7

-- The comparison of `sort_by_key(|e| encoding_priority(*e))`.
abbrev pub priority_leb : CompressionEncoder → CompressionEncoder → Bool
priority_leb a b = leb (encoding_priority a) (encoding_priority b)

-- Every encoding is read back from its name.
pub from_str-fmt : (e : CompressionEncoder) → from_str (fmt e) ≡ some e
unfolding from_str fmt
from_str-fmt plain_text = refl
from_str-fmt gzip = refl
from_str-fmt brotli = refl
from_str-fmt statsig_brotli = refl
from_str-fmt deflate = refl
from_str-fmt compress = refl
from_str-fmt identity = refl
from_str-fmt zstd = refl
