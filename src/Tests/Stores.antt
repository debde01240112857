-- ===== src/Tests/Stores.antt =====
-- The key store and the config spec store.
use statsig_forward_proxy.Prelude.{
  ℕ, ◌≡◌, refl, false, some, List, [], ◌∷◌, codes, get, if◌then◌else◌, arith, dedup, sort_by,
}
use statsig_forward_proxy.Encoding.{plain_text, gzip, encoding_eq}
use statsig_forward_proxy.Request.Path.{v1_download_config_specs}
use statsig_forward_proxy.Request.Context.{AuthorizedRequestContext, new, context_eq, context_key}
use statsig_forward_proxy.Store.{
  ResponsePayload, ResponseContext, DataProviderRequestResult, data_available, error,
}
use statsig_forward_proxy.Store.SdkKeys.{
  has_key, get_lcut, observes, upserts, run, AtLeast, run-AtLeast,
}
use statsig_forward_proxy.Store.ConfigSpecs.{
  Notification, SpecMap, notify, latest, get-notify, ServesAtLeast, notify-ServesAtLeast,
  get_config_spec, Answers, get_config_spec-Answers,
}

abbrev pub some_request : AuthorizedRequestContext
some_request = new (codes "secret-a") v1_download_config_specs (gzip ∷ [])

abbrev pub other_request : AuthorizedRequestContext
other_request = new (codes "secret-b") v1_download_config_specs (gzip ∷ [])

abbrev pub payload : ResponsePayload
payload = record { encoding = plain_text; use_proto = false; bytes = 1 ∷ 2 ∷ [] }

abbrev pub response : DataProviderRequestResult → ℕ → ResponseContext
response result lcut = record {
  result_type = result;
  lcut = lcut;
  request_since_time = 0;
  body = payload;
}

abbrev events : List Notification
events =
    (some_request, response data_available 5)
    ∷ (other_request, response data_available 9)
    ∷ (some_request, response error 3)
    ∷ []

get-notify_example :
    get some_request (notify [] events) ≡ some (record { lcut = 5; config = payload })
unfolding latest context_eq get new dedup sort_by encoding_eq
get-notify_example = get-notify some_request [] events

abbrev specs : SpecMap
specs = (some_request, record { lcut = 6; config = payload }) ∷ []

notify-ServesAtLeast_example : ServesAtLeast 6 (get some_request (notify specs events))
unfolding get context_eq new dedup sort_by encoding_eq
notify-ServesAtLeast_example = notify-ServesAtLeast some_request 6 specs events refl (omega arith)

get_config_spec-Answers_example :
    Answers 2
      (if has_key [] some_request
        then get some_request []
        else latest some_request (get some_request []) events)
      (get_config_spec [] [] events some_request 2).1
get_config_spec-Answers_example = get_config_spec-Answers [] [] events some_request 2

run-AtLeast_example : AtLeast 3 (
    get_lcut
      (run
        ((some_request, 3) ∷ [])
        (upserts some_request 1 ∷ observes some_request (response error 2) ∷ []))
      some_request)
unfolding get_lcut get context_eq new dedup sort_by encoding_eq
run-AtLeast_example =
    run-AtLeast some_request 3 ((some_request, 3) ∷ [])
      (upserts some_request 1 ∷ observes some_request (response error 2) ∷ []) refl (omega arith)
