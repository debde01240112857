-- ===== src/IdList/Schema/Codec.antt =====
-- Escaping loses nothing, and the keys and queue members that are built with it stay apart.
use mathlib.Core.List.{append_assoc}
use statsig_forward_proxy.Prelude.{
  ℕ, ◌≡◌, ◌≢◌, ◌∙◌, refl, sym, ap, false, some, [], ◌∷◌, ◌++◌, arith, Text, codes, ◌==◌,
  if◌then◌else◌, is_empty, trim, to_string, to_string-digits, to_string-injective, All, All-append,
  All-map,
}
use statsig_forward_proxy.IdList.Schema.State.{IdListMetadata}
use statsig_forward_proxy.IdList.Schema.Keys.{
  escape_component, unescape_component, apply_key_prefix, fwd_key, version_tag, encode_task,
  split_once, decode_task, push,
}

unescape_component-plain :
    (c : ℕ) (t : Text)
    → (c == b'%') ≡ false
    → unescape_component (c ∷ t) ≡ push c (unescape_component t)
unfolding unescape_component
unescape_component-plain c [] h = ground arith
unescape_component-plain c (a ∷ []) h = ground arith
unescape_component-plain c (a ∷ b ∷ s) h = ground arith

unescape_component-percent :
    (t : Text) → unescape_component (codes "%25" ++ t) ≡ push b'%' (unescape_component t)
unfolding unescape_component
unescape_component-percent t = refl

unescape_component-colon :
    (t : Text) → unescape_component (codes "%3A" ++ t) ≡ push b':' (unescape_component t)
unfolding unescape_component
unescape_component-colon t = refl

-- Unescaping undoes escaping, for every text.
pub unescape-escape_component : (s : Text) → unescape_component (escape_component s) ≡ some s
unfolding escape_component
unescape-escape_component [] = unfold unescape_component in refl
unescape-escape_component (c ∷ s) = ground (
  arith,
  unescape_component-percent (escape_component s),
  unescape_component-colon (escape_component s),
  unescape_component-plain c (escape_component s),
  unescape-escape_component s,
)

abbrev pub NoColon : Text → Type 0
NoColon = All (λ c. c ≢ b':')

escape_component-NoColon : (s : Text) → NoColon (escape_component s)
unfolding escape_component
escape_component-NoColon [] = tt
escape_component-NoColon (c ∷ s) = ground (arith, escape_component-NoColon s)

pub split_once-NoColon :
    (a b : Text) → NoColon a → split_once (a ++ (codes "::" ++ b)) ≡ some (a, b)
unfolding split_once
split_once-NoColon [] b h = refl
split_once-NoColon (x ∷ []) b h = ground arith
split_once-NoColon (x ∷ y ∷ a) b h = ground (arith, split_once-NoColon (y ∷ a) b h.1)

-- A task is read back from its queue member, whatever the name of the list; its namespace is base64
-- and has no colon.
pub decode_task-encode_task :
    (skh list : Text) → NoColon skh → decode_task (encode_task skh list) ≡ some (skh, list)
unfolding decode_task encode_task
decode_task-encode_task skh list h =
    rw (
      decode_task,
      split_once-NoColon skh (escape_component list) h,
      unescape-escape_component list,
    )

append_left_cancel : (p a b : Text) → p ++ a ≡ p ++ b → a ≡ b
append_left_cancel [] a b e = e
append_left_cancel (x ∷ p) a b e = append_left_cancel p a b (cc)

apply_key_prefix-injective :
    (key_prefix a b : Text) → apply_key_prefix key_prefix a ≡ apply_key_prefix key_prefix b → a ≡ b
unfolding apply_key_prefix
apply_key_prefix-injective key_prefix a b e = ground (
  arith,
  append_left_cancel (trim key_prefix) a b,
  append_left_cancel (trim key_prefix) (codes ":" ++ a) (codes ":" ++ b),
)

escape_component-injective : (a b : Text) → escape_component a ≡ escape_component b → a ≡ b
escape_component-injective a b e =
    ground
      (arith, unescape-escape_component a, unescape-escape_component b, ap unescape_component e)

ne-snoc : (xs : Text) (x : ℕ) → xs ++ x ∷ [] ≢ []
ne-snoc [] x e = cc
ne-snoc (y ∷ ys) x e = cc

snoc_cancel : (xs ys : Text) (x : ℕ) → xs ++ x ∷ [] ≡ ys ++ x ∷ [] → xs ≡ ys
snoc_cancel [] [] x e = refl
snoc_cancel [] (y ∷ ys) x e = absurd (ne-snoc ys x (cc))
snoc_cancel (y ∷ ys) [] x e = absurd (ne-snoc ys x (cc))
snoc_cancel (y ∷ ys) (z ∷ zs) x e = ground (arith, snoc_cancel ys zs x)

-- What stands before the first `::` and what stands behind it are determined by the whole.
split_cancel :
    (a a' b b' : Text)
    → NoColon a
    → NoColon a'
    → a ++ (codes "::" ++ b) ≡ a' ++ (codes "::" ++ b')
    → (a ≡ a') × (b ≡ b')
split_cancel a a' b b' h h' e =
    ground (arith, split_once-NoColon a b h, split_once-NoColon a' b' h', ap split_once e)

brace : (a b : Text) → a ++ (codes "}::" ++ b) ≡ (a ++ b'}' ∷ []) ++ (codes "::" ++ b)
brace a b = sym (append_assoc a (b'}' ∷ []) (codes "::" ++ b))

braced-NoColon : (list : Text) → NoColon (escape_component list ++ b'}' ∷ [])
braced-NoColon list =
    All-append (λ c. c ≢ b':') (escape_component list) (b'}' ∷ []) (escape_component-NoColon list)
      (omega arith)

fwd_body-injective :
    (list list' ver ver' : Text)
    → escape_component list ++ (codes "}::" ++ escape_component ver)
      ≡ escape_component list' ++ (codes "}::" ++ escape_component ver')
    → (list ≡ list') × (ver ≡ ver')
fwd_body-injective list list' ver ver' e =
    let (same_list, same_ver) =
      split_cancel (escape_component list ++ b'}' ∷ []) (escape_component list' ++ b'}' ∷ [])
        (escape_component ver) (escape_component ver') (braced-NoColon list) (braced-NoColon list')
        (sym (brace (escape_component list) (escape_component ver))
          ∙ e
          ∙ brace (escape_component list') (escape_component ver')) in
    (
      escape_component-injective list list'
          (snoc_cancel (escape_component list) (escape_component list') b'}' same_list),
      escape_component-injective ver ver' same_ver,
    )

-- For two namespaces without a colon: if the keys of two forward sets under the same prefix are equal,
-- then so are the namespaces, the lists and the versions.
pub fwd_key-injective :
    (key_prefix skh skh' list list' ver ver' : Text)
    → NoColon skh
    → NoColon skh'
    → fwd_key key_prefix skh list ver ≡ fwd_key key_prefix skh' list' ver'
    → (skh ≡ skh') × (list ≡ list') × (ver ≡ ver')
unfolding fwd_key
fwd_key-injective key_prefix skh skh' list list' ver ver' h h' e =
    let body =
      append_left_cancel (codes "idlist::fwd::{") _ _
        (apply_key_prefix-injective key_prefix _ _ e) in
    let (same_skh, rest) = split_cancel skh skh' _ _ h h' body in
    let (same_list, same_ver) = fwd_body-injective list list' ver ver' rest in
    (same_skh, same_list, same_ver)

at_absent : (xs r t : Text) → All (λ c. c ≢ b'@') t → t ≢ xs ++ (codes "@" ++ r)
at_absent xs r [] n q = ground (arith, ne-nil xs)
  where
    ne-nil : (ys : Text) → [] ≢ ys ++ (codes "@" ++ r)
    ne-nil [] p = cc
    ne-nil (y ∷ ys) p = cc
at_absent [] r (z ∷ t) n q = ground arith
at_absent (x ∷ xs) r (z ∷ t) n q = at_absent xs r t n.1 (cc)

-- Behind the last `@` stands what has none.
at_cancel :
    (a a' d d' : Text)
    → All (λ c. c ≢ b'@') d
    → All (λ c. c ≢ b'@') d'
    → a ++ (codes "@" ++ d) ≡ a' ++ (codes "@" ++ d')
    → (a ≡ a') × (d ≡ d')
at_cancel [] [] d d' h h' e = (refl, cc)
at_cancel [] (y ∷ ys) d d' h h' e = absurd (at_absent ys d' d h (cc))
at_cancel (x ∷ xs) [] d d' h h' e = absurd (at_absent xs d d' h' (cc))
at_cancel (x ∷ xs) (y ∷ ys) d d' h h' e =
    let (rest, same) = at_cancel xs ys d d' h h' (cc) in (ground arith, same)

digits-no_at : (n : ℕ) → All (λ c. c ≢ b'@') (to_string n)
digits-no_at n = All-map _ _ (to_string n) (λ c h. omega arith) (to_string-digits n)

-- Two files, or two creations of one file, never have the same version tag.
pub version_tag-injective :
    (m m' : IdListMetadata)
    → version_tag m ≡ version_tag m'
    → (m.file_id ≡ m'.file_id) × (m.creation_time ≡ m'.creation_time)
unfolding version_tag
version_tag-injective m m' e = by_ids m.file_id m'.file_id m.creation_time m'.creation_time e
  where
    tag : Text → ℕ → Text
    tag id n = if is_empty id then to_string n else id ++ (codes "@" ++ to_string n)

    by_ids : (a b : Text) (n k : ℕ) → tag a n ≡ tag b k → (a ≡ b) × (n ≡ k)
    by_ids [] [] n k q = (refl, to_string-injective n k q)
    by_ids [] (y ∷ ys) n k q =
        absurd (at_absent (y ∷ ys) (to_string k) (to_string n) (digits-no_at n) q)
    by_ids (x ∷ xs) [] n k q =
        absurd (at_absent (x ∷ xs) (to_string n) (to_string k) (digits-no_at k) (sym q))
    by_ids (x ∷ xs) (y ∷ ys) n k q =
        let (ids, times) =
          at_cancel (x ∷ xs) (y ∷ ys) (to_string n) (to_string k) (digits-no_at n) (digits-no_at k)
            q in
        (ids, to_string-injective n k times)
