-- ===== src/Tests/Requests.antt =====
-- Requests: encodings, paths, contexts and their cache.
use statsig_forward_proxy.Prelude.{
  ◌++◌, ◌≡◌, Bool, true, false, ◌||◌, none, [], ◌∷◌, Text, codes, split, trim, any, if◌then◌else◌,
}
use statsig_forward_proxy.Encoding.{
  CompressionEncoder, plain_text, gzip, brotli, identity, encoding_eq,
}
use statsig_forward_proxy.Encoding.Accept.{from_raw_value, acceptable_encodings}
use statsig_forward_proxy.Encoding.Laws.{contains, Rising}
use statsig_forward_proxy.Encoding.Preference.{offers, acceptable_encodings_lem}
use statsig_forward_proxy.Request.Path.{
  v1_download_config_specs, from, as_str, from-as_str, v2_download_config_specs_deltas,
}
use statsig_forward_proxy.Request.Context.{
  AuthorizedRequestContext, canonicalize_encodings, new, context_eq_refl, identity_of,
  context_eq-identity,
}
use statsig_forward_proxy.Request.Encodings.{canonicalize_encodings_lem}
use statsig_forward_proxy.Request.Cache.{
  CacheKey, context_for, get_or_insert, IsCoherent, get_or_insert-context_for,
}

-- `q=0` rejects, in the one spelling that is used here.
abbrev zero_rejects : Text → Bool
zero_rejects [] = false
zero_rejects (c ∷ s) = true

abbrev header : Text
header = codes "gzip, br;x=1, statsig-br"

acceptable_encodings_lem_example :
    Rising (acceptable_encodings (from_raw_value zero_rejects header))
    × ((e : CompressionEncoder)
        → contains e (acceptable_encodings (from_raw_value zero_rejects header)) ≡ (
            if encoding_eq e plain_text || encoding_eq e identity
            then false
            else any (λ raw. offers zero_rejects e (trim raw)) (split b',' header)))
acceptable_encodings_lem_example = acceptable_encodings_lem zero_rejects header

from-as_str_example :
    from (as_str v2_download_config_specs_deltas ++ codes "secret-a.json")
    ≡ v2_download_config_specs_deltas
from-as_str_example = from-as_str v2_download_config_specs_deltas (codes "secret-a.json") tt

canonicalize_encodings_lem_example : canonicalize_encodings (gzip ∷ brotli ∷ gzip ∷ []) ≡ gzip ∷ []
unfolding encoding_eq
canonicalize_encodings_lem_example = canonicalize_encodings_lem (gzip ∷ brotli ∷ gzip ∷ [])

abbrev a_context : AuthorizedRequestContext
a_context = new (codes "secret-a") v1_download_config_specs (gzip ∷ [])

context_eq-identity_example : identity_of a_context ≡ identity_of a_context
context_eq-identity_example = context_eq-identity a_context a_context (context_eq_refl a_context)

abbrev the_key : CacheKey
the_key = record {
  sdk_key = codes "secret-a";
  path = v1_download_config_specs;
  encodings = canonicalize_encodings (gzip ∷ gzip ∷ []);
  supports_proto = true;
  accept_deltas = false;
  file_id = none;
}

get_or_insert-context_for_example :
    IsCoherent
      (get_or_insert
        (λ c. c)
        []
        (codes "secret-a")
        v1_download_config_specs
        (gzip ∷ gzip ∷ [])
        true
        false
        none).0
    × ((get_or_insert
          (λ c. c)
          []
          (codes "secret-a")
          v1_download_config_specs
          (gzip ∷ gzip ∷ [])
          true
          false
          none).1
        ≡ context_for the_key)
get_or_insert-context_for_example =
    get_or_insert-context_for (λ c. c) [] (codes "secret-a") v1_download_config_specs
      (gzip ∷ gzip ∷ []) true false none (λ c h. h) tt
