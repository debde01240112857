-- ===== src/Polling/Outcome.antt =====
-- `process_result` of `background_data_provider.rs`: what a polled answer makes the observers hear,
-- and the two stores that listen, the key store and the config spec store.
use mathlib.Core.Logic.{inl, inr}
use statsig_forward_proxy.Prelude.{
  subst, get_congr, ℕ, ◌≤◌, Bool, false, ◌||◌, not, Option, none, some, List, [], ◌∷◌, arith, get,
  ◌==◌, if◌then◌else◌, Bool-cases,
}
use statsig_forward_proxy.Encoding.{plain_text}
use statsig_forward_proxy.Request.Context.{AuthorizedRequestContext, context_eq, context_key}
use statsig_forward_proxy.Store.{
  ResponsePayload, ResponseContext, FullRequestContext, DataProviderRequestResult, data_available,
  no_data_available, unauthorized, client_error, error,
}
use statsig_forward_proxy.Store.SdkKeys
use statsig_forward_proxy.Store.SdkKeys.{SdkKeyStore, get_lcut, get_lcut-update, observed, newest}
use statsig_forward_proxy.Store.ConfigSpecs
use statsig_forward_proxy.Store.ConfigSpecs.{
  ConfigSpecForCompany, SpecMap, spec_of, lcut_or_zero, get-update, observe, newer,
}

pub record DataProviderResult : Type 0 where
  pub result : DataProviderRequestResult
  pub body : Option ResponsePayload
  pub lcut : ℕ

-- `notify_observers` and `dispatch_backup_cache_touch`, each on the request that was polled.
pub data Effect : Type 0 where
  notify_observers : ResponseContext → Effect
  touch_backup_cache : Effect

abbrev empty_body : ResponsePayload
empty_body = record { encoding = plain_text; use_proto = false; bytes = [] }

abbrev pub tell : DataProviderRequestResult → ℕ → ℕ → ResponsePayload → List Effect
tell result lcut request_since_time body =
    notify_observers (record {
      result_type = result;
      lcut = lcut;
      request_since_time = request_since_time;
      body = body;
    })
    ∷ []

-- The effects of `process_result`. `backup` is what the backup cache has for the request, asked
-- for on errors only; the function returns `dp_result.result`.
unfoldable pub process_result :
    DataProviderResult → FullRequestContext → ℕ → Bool → Option ConfigSpecForCompany → List Effect
process_result dp_result request_context lcut clear_datastore_on_unauthorized backup =
    elim dp_result.result [
      | data_available ↦ elim dp_result.body [
        | none ↦ []
        | some body ↦
            if not request_context.authorized_request_context.use_lcut
              || not (lcut == dp_result.lcut)
            then tell data_available dp_result.lcut lcut body
            else []
      ]
      | no_data_available ↦ touch_backup_cache ∷ []
      | error ↦ elim backup [
        | none ↦ []
        | some backup_data ↦ tell error backup_data.lcut lcut backup_data.config
      ]
      | unauthorized ↦
          if clear_datastore_on_unauthorized then tell unauthorized lcut lcut empty_body else []
      | client_error ↦ tell client_error lcut lcut empty_body
    ]

-- The stores among the observers.
pub record Stores : Type 0 where
  pub keystore : SdkKeyStore
  pub specs : SpecMap

unfoldable pub notify_all : AuthorizedRequestContext → List Effect → Stores → Stores
notify_all rc [] stores = stores
notify_all rc (touch_backup_cache ∷ effects) stores = notify_all rc effects stores
notify_all rc (notify_observers response ∷ effects) stores = notify_all rc effects (record {
  keystore = SdkKeys.update stores.keystore rc response;
  specs = ConfigSpecs.update stores.specs rc response;
})

-- One answered poll of a request.
pub record Poll : Type 0 where
  pub request_context : FullRequestContext
  pub since : ℕ
  pub dp_result : DataProviderResult
  pub clear_datastore_on_unauthorized : Bool
  pub backup : Option ConfigSpecForCompany

unfoldable pub poll_all : List Poll → Stores → Stores
unfolding process_result notify_all
poll_all [] stores = stores
poll_all (p ∷ polls) stores = poll_all polls (
    notify_all p.request_context.authorized_request_context
      (process_result p.dp_result p.request_context p.since p.clear_datastore_on_unauthorized
        p.backup)
      stores)

abbrev stored_lcut : Option ℕ → ℕ
stored_lcut none = 0
stored_lcut (some n) = n

-- No request is polled since a later time than that of the spec it is served.
abbrev pub IsSynced : Stores → Type 0
IsSynced stores =
    (k : AuthorizedRequestContext)
    → stored_lcut (get_lcut stores.keystore k) ≤ lcut_or_zero (get k stores.specs)

abbrev KeepsUp : (a : Option ℕ) (b : Option ConfigSpecForCompany) → Type 0
KeepsUp a b = stored_lcut a ≤ lcut_or_zero b

observed-KeepsUp :
    (rc : AuthorizedRequestContext) (response : ResponseContext) (a : Option ℕ)
    (b : Option ConfigSpecForCompany)
    → KeepsUp a b
    → KeepsUp (observed rc response a) (observe response.result_type b (spec_of response))
observed-KeepsUp rc response none none h = ground arith
observed-KeepsUp rc response none (some spec) h = ground arith
observed-KeepsUp rc response (some n) none h = ground arith
observed-KeepsUp rc response (some n) (some spec) h = ground arith

response-IsSynced :
    (rc : AuthorizedRequestContext) (response : ResponseContext) (stores : Stores)
    → IsSynced stores
    → IsSynced (record {
      keystore = SdkKeys.update stores.keystore rc response;
      specs = ConfigSpecs.update stores.specs rc response;
    })
response-IsSynced rc response stores h k =
    rw (get_lcut-update stores.keystore rc k response, get-update stores.specs rc k response)
      (elim (Bool-cases (context_eq rc k)) [
        | inl e ↦ rw e (
            subst
              (λ b.
                KeepsUp (observed rc response (get_lcut stores.keystore rc))
                  (observe response.result_type b (spec_of response)))
              (get_congr rc k stores.specs e)
              (observed-KeepsUp rc response (get_lcut stores.keystore rc) (get rc stores.specs)
                (h rc)))
        | inr e ↦ rw e (h k)
      ])

notify_all-IsSynced :
    (rc : AuthorizedRequestContext) (effects : List Effect) (stores : Stores)
    → IsSynced stores
    → IsSynced (notify_all rc effects stores)
unfolding notify_all
notify_all-IsSynced rc [] stores h = h
notify_all-IsSynced rc (touch_backup_cache ∷ effects) stores h =
    notify_all-IsSynced rc effects stores h
notify_all-IsSynced rc (notify_observers response ∷ effects) stores h =
    notify_all-IsSynced rc effects
      (record {
        keystore = SdkKeys.update stores.keystore rc response;
        specs = ConfigSpecs.update stores.specs rc response;
      })
      (response-IsSynced rc response stores h)

-- Polling never skips an update of the config specs: over any polls, with any answers, backups and
-- settings, the lcut that a request is polled with next is at most that of the spec it is served
-- (0 stands for no lcut and for no
-- spec), if it was so before them.
pub poll_all-IsSynced :
    (polls : List Poll) (stores : Stores) → IsSynced stores → IsSynced (poll_all polls stores)
unfolding poll_all
poll_all-IsSynced [] stores h = h
poll_all-IsSynced (p ∷ polls) stores h =
    poll_all-IsSynced polls
      (notify_all p.request_context.authorized_request_context
        (process_result p.dp_result p.request_context p.since p.clear_datastore_on_unauthorized
          p.backup)
        stores)
      (notify_all-IsSynced p.request_context.authorized_request_context
        (process_result p.dp_result p.request_context p.since p.clear_datastore_on_unauthorized
          p.backup)
        stores h)
