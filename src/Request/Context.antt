-- ===== src/Request/Context.antt =====
-- `AuthorizedRequestContext` of `servers/authorized_request_context.rs`.
use statsig_forward_proxy.Prelude.{
  ℕ, ◌≡◌, ap, Bool, true, false, ◌||◌, Option, none, List, [], ◌∷◌, arith, Text, Eq, text_beq,
  text_beq_refl, text_beq_sound, ◌==◌, if◌then◌else◌, is_empty, sort_by, dedup, retain, list_beq,
  list_beq_refl, list_beq-IsSound, option_beq, option_beq_refl, option_beq-IsSound, bool_beq,
  bool_beq_refl, bool_beq-IsSound, nat_beq_refl, nat_beq-IsSound,
}
use statsig_forward_proxy.Encoding.{
  CompressionEncoder, plain_text, gzip, statsig_brotli, encoding_eq, priority_leb,
}
use statsig_forward_proxy.Encoding.Laws.{encoding_eq_refl, encoding_eq_sound}
use statsig_forward_proxy.Request.Path.{
  NormalizedPath, v1_download_config_specs, v2_download_config_specs,
  v2_download_config_specs_deltas, path_eq, path_eq_refl, path_eq-IsSound,
}

pub record AuthorizedRequestContext : Type 0 where
  pub sdk_key : Text
  pub path : NormalizedPath
  pub use_lcut : Bool
  pub supports_proto : Bool
  pub accept_deltas : Bool
  pub encodings : List CompressionEncoder
  pub raw_path : Option Text
  pub raw_query : Option Text
  pub file_id : Option Text
  pub range_start : Option ℕ
  pub id_list_size : Option ℕ

-- The encodings that are fetched and stored.
abbrev pub is_stored : CompressionEncoder → Bool
is_stored e = encoding_eq e statsig_brotli || encoding_eq e gzip

unfoldable pub canonicalize_encodings : List CompressionEncoder → List CompressionEncoder
canonicalize_encodings encodings =
    let kept = retain is_stored (dedup encoding_eq (sort_by priority_leb encodings)) in
    if is_empty kept then plain_text ∷ [] else kept

unfoldable pub new : Text → NormalizedPath → List CompressionEncoder → AuthorizedRequestContext
unfolding canonicalize_encodings path_eq
new sdk_key path encodings = record {
  sdk_key = sdk_key;
  path = path;
  use_lcut =
      path_eq path v1_download_config_specs
      || path_eq path v2_download_config_specs
      || path_eq path v2_download_config_specs_deltas;
  supports_proto = false;
  accept_deltas = false;
  encodings = canonicalize_encodings encodings;
  raw_path = none;
  raw_query = none;
  file_id = none;
  range_start = none;
  id_list_size = none;
}

abbrev pub with_request_capabilities :
    AuthorizedRequestContext → Bool → Bool → AuthorizedRequestContext
with_request_capabilities rc supports_proto accept_deltas = record rc {
  supports_proto = supports_proto;
  accept_deltas = accept_deltas;
}

abbrev pub with_raw_request :
    AuthorizedRequestContext → Option Text → Option Text → AuthorizedRequestContext
with_raw_request rc raw_path raw_query = record rc { raw_path = raw_path; raw_query = raw_query }

abbrev pub with_id_list_request :
    AuthorizedRequestContext → Option Text → Option ℕ → Option ℕ → AuthorizedRequestContext
with_id_list_request rc file_id range_start id_list_size = record rc {
  file_id = file_id;
  range_start = range_start;
  id_list_size = id_list_size;
}

-- `PartialEq`: the identity of a request leaves out `use_lcut`, the raw path and query and the
-- start of the range.
unfoldable pub context_eq : AuthorizedRequestContext → AuthorizedRequestContext → Bool
context_eq a b =
    if text_beq a.sdk_key b.sdk_key
    then if path_eq a.path b.path
      then if list_beq encoding_eq a.encodings b.encodings
        then if bool_beq a.supports_proto b.supports_proto
          then if bool_beq a.accept_deltas b.accept_deltas
            then if option_beq text_beq a.file_id b.file_id
              then option_beq ◌==◌ a.id_list_size b.id_list_size
              else false
            else false
          else false
        else false
      else false
    else false

pub context_eq_refl : (a : AuthorizedRequestContext) → context_eq a a ≡ true
unfolding context_eq
context_eq_refl a = ground (
  arith,
  text_beq_refl a.sdk_key,
  path_eq_refl a.path,
  list_beq_refl encoding_eq encoding_eq_refl a.encodings,
  bool_beq_refl a.supports_proto,
  bool_beq_refl a.accept_deltas,
  option_beq_refl text_beq text_beq_refl a.file_id,
  option_beq_refl ◌==◌ nat_beq_refl a.id_list_size,
)

-- The part of a context that is its identity.
pub record Identity : Type 0 where
  pub sdk_key : Text
  pub path : NormalizedPath
  pub encodings : List CompressionEncoder
  pub supports_proto : Bool
  pub accept_deltas : Bool
  pub file_id : Option Text
  pub id_list_size : Option ℕ

abbrev pub identity_of : AuthorizedRequestContext → Identity
identity_of a = record {
  sdk_key = a.sdk_key;
  path = a.path;
  encodings = a.encodings;
  supports_proto = a.supports_proto;
  accept_deltas = a.accept_deltas;
  file_id = a.file_id;
  id_list_size = a.id_list_size;
}

-- Two contexts that the code takes for equal have the same SDK key, path, encodings, capabilities,
-- file and list size.
pub context_eq-identity :
    (a b : AuthorizedRequestContext) → context_eq a b ≡ true → identity_of a ≡ identity_of b
unfolding context_eq
context_eq-identity a b h = ground (
  arith,
  text_beq_sound a.sdk_key b.sdk_key,
  path_eq-IsSound a.path b.path,
  list_beq-IsSound encoding_eq encoding_eq_sound a.encodings b.encodings,
  bool_beq-IsSound a.supports_proto b.supports_proto,
  bool_beq-IsSound a.accept_deltas b.accept_deltas,
  option_beq-IsSound text_beq text_beq_sound a.file_id b.file_id,
  option_beq-IsSound ◌==◌ nat_beq-IsSound a.id_list_size b.id_list_size,
)

-- `context_eq` reads the identity alone.
identity_eq : Identity → AuthorizedRequestContext → Bool
identity_eq i b =
    context_eq
      (record {
        sdk_key = i.sdk_key;
        path = i.path;
        use_lcut = false;
        supports_proto = i.supports_proto;
        accept_deltas = i.accept_deltas;
        encodings = i.encodings;
        raw_path = none;
        raw_query = none;
        file_id = i.file_id;
        range_start = none;
        id_list_size = i.id_list_size;
      })
      b

pub context_eq_congr :
    (a b c : AuthorizedRequestContext) → context_eq a b ≡ true → context_eq a c ≡ context_eq b c
unfolding context_eq identity_eq
context_eq_congr a b c h = ap (λ i. identity_eq i c) (context_eq-identity a b h)

instance abbrev pub context_key : Eq AuthorizedRequestContext
context_key = record { beq = context_eq; beq_refl = context_eq_refl; beq_congr = context_eq_congr }
