-- ===== src/Request/Cache.antt =====
-- `AuthorizedRequestContextCache` of `servers/authorized_request_context.rs`: one context for each
-- cache key, read under the read lock and filled in under the write lock.
use statsig_forward_proxy.Prelude.{
  ◌≡◌, refl, sym, ap, Bool, true, false, Option, none, some, List, [], ◌∷◌, arith, Text, text_beq,
  text_beq_refl, text_beq_sound, if◌then◌else◌, Eq, eq_of_sound, IsSound, list_beq, list_beq_refl,
  list_beq-IsSound, option_beq, option_beq_refl, option_beq-IsSound, bool_beq, bool_beq_refl,
  bool_beq-IsSound, Map, get, insert, All, Option-cases, inl, inr, Bool-cases,
}
use statsig_forward_proxy.Encoding.{CompressionEncoder, encoding_eq}
use statsig_forward_proxy.Encoding.Laws.{encoding_eq_refl, encoding_eq_sound}
use statsig_forward_proxy.Request.Path.{NormalizedPath, path_eq, path_eq_refl, path_eq-IsSound}
use statsig_forward_proxy.Request.Context.{
  AuthorizedRequestContext, canonicalize_encodings, new, with_request_capabilities,
  with_id_list_request,
}

pub record CacheKey : Type 0 where
  pub sdk_key : Text
  pub path : NormalizedPath
  pub encodings : List CompressionEncoder
  pub supports_proto : Bool
  pub accept_deltas : Bool
  pub file_id : Option Text

-- The equality of the tuples.
key_eq : CacheKey → CacheKey → Bool
key_eq a b =
    if text_beq a.sdk_key b.sdk_key
    then if path_eq a.path b.path
      then if list_beq encoding_eq a.encodings b.encodings
        then if bool_beq a.supports_proto b.supports_proto
          then if bool_beq a.accept_deltas b.accept_deltas
            then option_beq text_beq a.file_id b.file_id
            else false
          else false
        else false
      else false
    else false

key_eq_refl : (a : CacheKey) → key_eq a a ≡ true
unfolding key_eq
key_eq_refl a = ground (
  arith,
  text_beq_refl a.sdk_key,
  path_eq_refl a.path,
  list_beq_refl encoding_eq encoding_eq_refl a.encodings,
  bool_beq_refl a.supports_proto,
  bool_beq_refl a.accept_deltas,
  option_beq_refl text_beq text_beq_refl a.file_id,
)

key_eq-IsSound : IsSound key_eq
unfolding key_eq
key_eq-IsSound a b h = ground (
  arith,
  text_beq_sound a.sdk_key b.sdk_key,
  path_eq-IsSound a.path b.path,
  list_beq-IsSound encoding_eq encoding_eq_sound a.encodings b.encodings,
  bool_beq-IsSound a.supports_proto b.supports_proto,
  bool_beq-IsSound a.accept_deltas b.accept_deltas,
  option_beq-IsSound text_beq text_beq_sound a.file_id b.file_id,
)

instance abbrev cache_key : Eq CacheKey
cache_key = eq_of_sound key_eq key_eq_refl key_eq-IsSound

abbrev pub ContextCache : Type 0
ContextCache = Map CacheKey AuthorizedRequestContext

-- The closure of `or_insert_with`.
pub context_for : CacheKey → AuthorizedRequestContext
unfolding new
context_for k =
    with_id_list_request
      (with_request_capabilities (new k.sdk_key k.path k.encodings) k.supports_proto
        k.accept_deltas)
      k.file_id none none

-- `entry(key).or_insert_with(..)` under the write lock.
or_insert : ContextCache → CacheKey → ContextCache × AuthorizedRequestContext
unfolding context_for
or_insert cache key = elim (get key cache) [
  | some context ↦ (cache, context)
  | none ↦ (insert key (context_for key) cache, context_for key)
]

-- `interlude` is what other threads do to the cache between the read lock and the write lock.
pub get_or_insert :
    (ContextCache → ContextCache)
    → ContextCache
    → Text
    → NormalizedPath
    → List CompressionEncoder
    → Bool
    → Bool
    → Option Text
    → ContextCache × AuthorizedRequestContext
unfolding or_insert canonicalize_encodings
get_or_insert interlude cache sdk_key path encodings supports_proto accept_deltas file_id =
    let key : CacheKey = record {
      sdk_key = sdk_key;
      path = path;
      encodings = canonicalize_encodings encodings;
      supports_proto = supports_proto;
      accept_deltas = accept_deltas;
      file_id = file_id;
    } in
    elim (get key cache) [
      | some context ↦ (cache, context)
      | none ↦ or_insert (interlude cache) key
    ]

-- Every stored context is the one of its key.
abbrev pub IsCoherent : ContextCache → Type 0
IsCoherent cache = All (λ entry. entry.1 ≡ context_for entry.0) cache

get-IsCoherent :
    (k : CacheKey) (cache : ContextCache) (rc : AuthorizedRequestContext)
    → IsCoherent cache
    → get k cache ≡ some rc
    → rc ≡ context_for k
unfolding get
get-IsCoherent k [] rc c h = cc
get-IsCoherent k ((j, v) ∷ m) rc c h = elim (Bool-cases (key_eq j k)) [
  | inl same ↦ ground (arith, ap context_for (key_eq-IsSound j k same))
  | inr other ↦ get-IsCoherent k m rc c.1 (ground arith)
]

insert-IsCoherent :
    (k : CacheKey) (cache : ContextCache)
    → IsCoherent cache
    → IsCoherent (insert k (context_for k) cache)
unfolding insert
insert-IsCoherent k [] c = (refl, tt)
insert-IsCoherent k ((j, v) ∷ m) c = elim (Bool-cases (key_eq j k)) [
  | inl same ↦ rw same (ap context_for (sym (key_eq-IsSound j k same)), c.1)
  | inr other ↦ rw other (c.0, insert-IsCoherent k m c.1)
]

or_insert-IsCoherent :
    (cache : ContextCache) (k : CacheKey)
    → IsCoherent cache
    → IsCoherent (or_insert cache k).0 × ((or_insert cache k).1 ≡ context_for k)
unfolding or_insert
or_insert-IsCoherent cache k c = elim (Option-cases (get k cache)) [
  | inl missing ↦ rw (missing, or_insert) (insert-IsCoherent k cache c, refl)
  | inr (rc, found) ↦ rw (found, or_insert) (c, get-IsCoherent k cache rc c found)
]

-- Whatever other threads do between the two locks, as long as they keep the cache coherent, the
-- context returned is the one of the request's own key, and the cache stays coherent.
pub get_or_insert-context_for :
    (interlude : ContextCache → ContextCache) (cache : ContextCache) (sdk_key : Text)
    (path : NormalizedPath) (encodings : List CompressionEncoder)
    (supports_proto accept_deltas : Bool) (file_id : Option Text)
    → ((c : ContextCache) → IsCoherent c → IsCoherent (interlude c))
    → IsCoherent cache
    → IsCoherent
        (get_or_insert interlude cache sdk_key path encodings supports_proto accept_deltas
          file_id).0
      × ((get_or_insert interlude cache sdk_key path encodings supports_proto accept_deltas
            file_id).1
          ≡ context_for (record {
            sdk_key = sdk_key;
            path = path;
            encodings = canonicalize_encodings encodings;
            supports_proto = supports_proto;
            accept_deltas = accept_deltas;
            file_id = file_id;
          }))
unfolding get_or_insert
get_or_insert-context_for interlude cache sdk_key path encodings supports_proto accept_deltas
      file_id keeps c =
    let key : CacheKey = record {
      sdk_key = sdk_key;
      path = path;
      encodings = canonicalize_encodings encodings;
      supports_proto = supports_proto;
      accept_deltas = accept_deltas;
      file_id = file_id;
    } in
    elim (Option-cases (get key cache)) [
      | inl missing ↦
          rw (missing, get_or_insert) (or_insert-IsCoherent (interlude cache) key (keeps cache c))
      | inr (rc, found) ↦ rw (found, get_or_insert) (c, get-IsCoherent key cache rc c found)
    ]
