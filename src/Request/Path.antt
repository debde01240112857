-- ===== src/Request/Path.antt =====
-- `servers/normalized_path.rs`: the endpoints, by the prefix of the path.
use statsig_forward_proxy.Prelude.{
  ℕ, ◌≡◌, refl, ap, Bool, true, false, List, [], ◌∷◌, ◌++◌, All, ◌∙◌, arith, Text, codes, text_beq,
  text_beq_refl, text_beq_sound, ◌==◌, if◌then◌else◌, strip_prefix, is_some, IsSound,
}

pub data NormalizedPath : Type 0 where
  v1_download_config_specs v1_get_id_lists v1_download_id_list_file v1_log_event : NormalizedPath
  v1_user_enrichment v2_download_config_specs v2_download_config_specs_deltas : NormalizedPath
  raw_path : Text → NormalizedPath

unfoldable pub as_str : NormalizedPath → Text
as_str v1_download_config_specs = codes "/v1/download_config_specs/"
as_str v1_get_id_lists = codes "/v1/get_id_lists/"
as_str v1_download_id_list_file = codes "/v1/download_id_list_file/"
as_str v1_log_event = codes "/v1/log_event/"
as_str v1_user_enrichment = codes "/v1/user_enrichment/"
as_str v2_download_config_specs = codes "/v2/download_config_specs/"
as_str v2_download_config_specs_deltas = codes "/v2/download_config_specs_deltas/"
as_str (raw_path path) = path

abbrev pub starts_with : Text → Text → Bool
starts_with value prefix = is_some (strip_prefix prefix value)

-- `From<&str>`.
unfoldable pub from : Text → NormalizedPath
from value =
    if starts_with value (codes "/v1/download_config_specs")
    then v1_download_config_specs
    else if starts_with value (codes "/v1/get_id_lists")
    then v1_get_id_lists
    else if starts_with value (codes "/v1/download_id_list_file")
    then v1_download_id_list_file
    else if starts_with value (codes "/v1/log_event")
    then v1_log_event
    else if starts_with value (codes "/v1/user_enrichment")
    then v1_user_enrichment
    else if starts_with value (codes "/v2/download_config_specs_deltas")
    then v2_download_config_specs_deltas
    else if starts_with value (codes "/v2/download_config_specs")
    then v2_download_config_specs
    else raw_path value

-- The derived `PartialEq`.
unfoldable pub path_index : NormalizedPath → ℕ
path_index v1_download_config_specs = 0
path_index v1_get_id_lists = 1
path_index v1_download_id_list_file = 2
path_index v1_log_event = 3
path_index v1_user_enrichment = 4
path_index v2_download_config_specs = 5
path_index v2_download_config_specs_deltas = 6
path_index (raw_path path) = 7

unfoldable pub path_text : NormalizedPath → Text
path_text (raw_path path) = path
path_text _ = []

unfoldable pub path_eq : NormalizedPath → NormalizedPath → Bool
unfolding path_index path_text
path_eq a b = if path_index a == path_index b then text_beq (path_text a) (path_text b) else false

pub path_eq_refl : (a : NormalizedPath) → path_eq a a ≡ true
unfolding path_eq
path_eq_refl a = ground (arith, text_beq_refl (path_text a))

pub path_eq-IsSound : IsSound path_eq
unfolding path_eq
path_eq-IsSound (raw_path p) (raw_path q) h = ground (arith, text_beq_sound p q)
path_eq-IsSound a b h = ground arith

abbrev pub is_raw : NormalizedPath → Bool
is_raw (raw_path path) = true
is_raw _ = false

-- The prefixes of the endpoints.
abbrev pub endpoints : List Text
endpoints =
    codes "/v1/download_config_specs"
    ∷ codes "/v1/get_id_lists"
    ∷ codes "/v1/download_id_list_file"
    ∷ codes "/v1/log_event"
    ∷ codes "/v1/user_enrichment"
    ∷ codes "/v2/download_config_specs_deltas"
    ∷ codes "/v2/download_config_specs"
    ∷ []

-- What may stand behind the text of a path: anything behind an endpoint, nothing behind another path,
-- which begins like no endpoint.
abbrev pub Behind : NormalizedPath → Text → Type 0
Behind (raw_path path) rest = (rest ≡ []) × All (λ e. starts_with path e ≡ false) endpoints
Behind _ rest = Unit {0}

append_nil : (s : Text) → s ++ [] ≡ s
append_nil [] = refl
append_nil (c ∷ s) = ap (λ t. c ∷ t) (append_nil s)

-- The text of an endpoint, with anything behind it, is normalized to the endpoint, those of the second
-- version included, of which one begins with the other; a path that begins like no endpoint is kept
-- as it is.
pub from-as_str : (n : NormalizedPath) (rest : Text) → Behind n rest → from (as_str n ++ rest) ≡ n
unfolding from as_str strip_prefix
from-as_str v1_download_config_specs rest h = refl
from-as_str v1_get_id_lists rest h = refl
from-as_str v1_download_id_list_file rest h = refl
from-as_str v1_log_event rest h = refl
from-as_str v1_user_enrichment rest h = refl
from-as_str v2_download_config_specs rest h = refl
from-as_str v2_download_config_specs_deltas rest h = refl
from-as_str (raw_path path) rest h =
    ap (λ r. from (path ++ r)) h.0
    ∙ (ap from (append_nil path)
        ∙ rw
            (
              from, h.1.0, h.1.1.0, h.1.1.1.0, h.1.1.1.1.0, h.1.1.1.1.1.0, h.1.1.1.1.1.1.0,
              h.1.1.1.1.1.1.1.0,
            )
            refl)
