-- ===== src/Store/ConfigSpecs.antt =====
-- `datastore/config_spec_store.rs`: the config specs that are served, one for each request context.
-- A notification is a request with the response that the observer is told of.
use mathlib.Core.Logic.{inl, inr}
use statsig_forward_proxy.Prelude.{
  ℕ, ◌≡◌, ◌≤◌, ◌<◌, refl, Bool, false, Option, none, some, List, [], ◌∷◌, arith, ltb, if◌then◌else◌,
  codes, Map, get, insert, remove, contains_key, get-insert, get-remove, get_congr, Option-cases,
  Bool-cases, any, ◌⊎◌,
}
use statsig_forward_proxy.Encoding.{plain_text}
use statsig_forward_proxy.Request.Context.{AuthorizedRequestContext, context_eq, context_key}
use statsig_forward_proxy.Store.{
  DataProviderRequestResult, data_available, no_data_available, unauthorized, client_error, error,
  ResponseContext, ResponsePayload,
}
use statsig_forward_proxy.Store.SdkKeys.{SdkKeyStore, has_key}

pub record ConfigSpecForCompany : Type 0 where
  pub lcut : ℕ
  pub config : ResponsePayload

abbrev pub SpecMap : Type 0
SpecMap = Map AuthorizedRequestContext ConfigSpecForCompany

abbrev pub spec_of : ResponseContext → ConfigSpecForCompany
spec_of response = record { lcut = response.lcut; config = response.body }

abbrev pub lcut_or_zero : Option ConfigSpecForCompany → ℕ
lcut_or_zero none = 0
lcut_or_zero (some found) = found.lcut

-- The branch of `update` for data and for errors, which carry the backup's data.
store_spec : SpecMap → AuthorizedRequestContext → ResponseContext → SpecMap
store_spec store rc response =
    if contains_key rc store
    then if ltb (lcut_or_zero (get rc store)) response.lcut
      then insert rc (spec_of response) store
      else store
    else insert rc (spec_of response) store

unfoldable pub update : SpecMap → AuthorizedRequestContext → ResponseContext → SpecMap
unfolding store_spec
update store rc response = elim response.result_type [
  | data_available ↦ store_spec store rc response
  | error ↦ store_spec store rc response
  | unauthorized ↦ remove rc store
  | no_data_available ↦ store
  | client_error ↦ store
]

abbrev pub Notification : Type 0
Notification = AuthorizedRequestContext × ResponseContext

unfoldable pub notify : SpecMap → List Notification → SpecMap
unfolding update
notify store [] = store
notify store ((rc, response) ∷ rest) = notify (update store rc response) rest

abbrev pub no_update_config : ResponsePayload
no_update_config = record {
  encoding = plain_text;
  use_proto = false;
  bytes = codes "{\"has_updates\":false}";
}

-- `fetched` is what the store is told of while `foreground_fetch` is awaited. The result comes with
-- the store after the call.
unfoldable pub get_config_spec :
    SdkKeyStore
    → SpecMap
    → List Notification
    → AuthorizedRequestContext
    → ℕ
    → SpecMap × Option ConfigSpecForCompany
unfolding notify
get_config_spec keystore store fetched rc since_time =
    let current = if has_key keystore rc then store else notify store fetched in
    (
      current,
      elim (get rc current) [
        | some found ↦
            if ltb since_time found.lcut
            then some found
            else some (record { lcut = found.lcut; config = no_update_config })
        | none ↦ none
      ],
    )

-- The specification: of the responses for a key since it was last unauthorized, the first one with
-- the greatest lcut.
abbrev pub newer : Option ConfigSpecForCompany → ConfigSpecForCompany → Option ConfigSpecForCompany
newer none spec = some spec
newer (some old) spec = some (if ltb old.lcut spec.lcut then spec else old)

abbrev pub observe :
    DataProviderRequestResult
    → Option ConfigSpecForCompany
    → ConfigSpecForCompany
    → Option ConfigSpecForCompany
observe data_available current spec = newer current spec
observe error current spec = newer current spec
observe unauthorized current spec = none
observe no_data_available current spec = current
observe client_error current spec = current

unfoldable pub latest :
    AuthorizedRequestContext
    → Option ConfigSpecForCompany
    → List Notification
    → Option ConfigSpecForCompany
latest key current [] = current
latest key current ((rc, response) ∷ rest) =
    latest key
      (if context_eq rc key
        then observe response.result_type current (spec_of response)
        else current)
      rest

pub get-update :
    (store : SpecMap) (rc key : AuthorizedRequestContext) (response : ResponseContext)
    → get key (update store rc response) ≡ (
        if context_eq rc key
        then observe response.result_type (get key store) (spec_of response)
        else get key store)
unfolding update
get-update store rc key response = elim (Option-cases (get rc store)) [
  | inl missing ↦ ground (
    arith,
    get-insert key rc (spec_of response) store,
    get-remove key rc store,
    get_congr rc key store,
  )
  | inr (v, found) ↦ ground (
    arith,
    get-insert key rc (spec_of response) store,
    get-remove key rc store,
    get_congr rc key store,
  )
]

-- The store refines the specification: after any notifications it holds, for each key, the first
-- config with the greatest lcut among what it held before and the data and backup data since, as far
-- as they come after the last time that the key was unauthorized.
pub get-notify :
    (key : AuthorizedRequestContext) (store : SpecMap) (events : List Notification)
    → get key (notify store events) ≡ latest key (get key store) events
unfolding notify latest
get-notify key store [] = refl
get-notify key store ((rc, response) ∷ rest) =
    rw (← get-update store rc key response) (get-notify key (update store rc response) rest)

-- A spec no older than `m` is there.
abbrev pub ServesAtLeast : ℕ → Option ConfigSpecForCompany → Type 0
ServesAtLeast m none = ⊥
ServesAtLeast m (some spec) = m ≤ spec.lcut

abbrev pub revokes : AuthorizedRequestContext → Notification → Bool
revokes key (rc, response) = elim response.result_type [
  | unauthorized ↦ context_eq rc key
  | data_available ↦ false
  | error ↦ false
  | no_data_available ↦ false
  | client_error ↦ false
]

latest-ServesAtLeast :
    (key : AuthorizedRequestContext) (m : ℕ) (current : Option ConfigSpecForCompany)
    (events : List Notification)
    → any (revokes key) events ≡ false
    → ServesAtLeast m current
    → ServesAtLeast m (latest key current events)
unfolding latest
latest-ServesAtLeast key m current [] h s = s
latest-ServesAtLeast key m none (e ∷ rest) h s = absurd s
latest-ServesAtLeast key m (some spec) ((rc, response) ∷ rest) h s =
    latest-ServesAtLeast key m
      (if context_eq rc key
        then observe response.result_type (some spec) (spec_of response)
        else some spec)
      rest (ground arith) (ground arith)

-- What is served for a key never gets older, unless the key is reported unauthorized.
pub notify-ServesAtLeast :
    (key : AuthorizedRequestContext) (m : ℕ) (store : SpecMap) (events : List Notification)
    → any (revokes key) events ≡ false
    → ServesAtLeast m (get key store)
    → ServesAtLeast m (get key (notify store events))
notify-ServesAtLeast key m store events h s =
    rw (get-notify key store events) (latest-ServesAtLeast key m (get key store) events h s)

-- What a reply must be for the spec that is stored: the spec itself if it is newer than what the
-- client has, else the "no update" body with the stored lcut; nothing if nothing is stored.
abbrev pub Answers : ℕ → Option ConfigSpecForCompany → Option ConfigSpecForCompany → Type 0
Answers since none none = Unit {0}
Answers since none (some reply) = ⊥
Answers since (some spec) none = ⊥
Answers since (some spec) (some reply) =
    (reply.lcut ≡ spec.lcut)
    × (((since < spec.lcut) × (reply.config ≡ spec.config))
        ⊎ ((spec.lcut ≤ since) × (reply.config ≡ no_update_config)))

-- A registered key is answered from the store, with no fetch; any other from what the fetch left:
-- the first response with the greatest lcut. In both cases the reply is the stored spec exactly if
-- that is newer than the client's, and the "no update" body otherwise, and there is none exactly
-- if nothing is stored.
pub get_config_spec-Answers :
    (keystore : SdkKeyStore) (store : SpecMap) (fetched : List Notification)
    (rc : AuthorizedRequestContext) (since_time : ℕ)
    → Answers since_time
        (if has_key keystore rc then get rc store else latest rc (get rc store) fetched)
        (get_config_spec keystore store fetched rc since_time).1
unfolding get_config_spec
get_config_spec-Answers keystore store fetched rc since_time =
    elim (Bool-cases (has_key keystore rc)) [
      | inl known ↦ rw (known, get_config_spec) (answer (get rc store))
      | inr unknown ↦
          rw (unknown, get_config_spec, ← get-notify rc store fetched)
            (answer (get rc (notify store fetched)))
    ]
  where
    answer :
        (stored : Option ConfigSpecForCompany)
        → Answers since_time stored (elim stored [
          | some found ↦
              if ltb since_time found.lcut
              then some found
              else some (record { lcut = found.lcut; config = no_update_config })
          | none ↦ none
        ])
    answer none = tt
    answer (some spec) = ground arith
