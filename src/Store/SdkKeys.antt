-- ===== src/Store/SdkKeys.antt =====
-- `datastore/sdk_key_store.rs`: which requests are polled, each with the time of its last config
-- update (lcut).
use statsig_forward_proxy.Prelude.{
  ℕ, ◌≡◌, ◌≤◌, Bool, true, false, ◌||◌, not, Option, none, some, List, [], ◌∷◌, arith, ltb,
  if◌then◌else◌, Map, get, insert, remove, contains_key, get-insert, get-remove, get_congr, ◌&&◌,
  all, Bool-cases, map, Option-cases, inl, inr,
}
use statsig_forward_proxy.Request.Context.{AuthorizedRequestContext, context_eq, context_key}
use statsig_forward_proxy.Store.{
  DataProviderRequestResult, data_available, no_data_available, unauthorized, client_error, error,
  ResponseContext,
}

abbrev pub SdkKeyStore : Type 0
SdkKeyStore = Map AuthorizedRequestContext ℕ

-- `map_or(true, |v| *v < lcut)`.
abbrev pub is_older : Option ℕ → ℕ → Bool
is_older none lcut = true
is_older (some v) lcut = ltb v lcut

-- The observer's `update`.
unfoldable pub update : SdkKeyStore → AuthorizedRequestContext → ResponseContext → SdkKeyStore
update keystore rc response = elim response.result_type [
  | data_available ↦
      if not rc.use_lcut || is_older (get rc keystore) response.lcut
      then insert rc response.lcut keystore
      else keystore
  | unauthorized ↦ remove rc keystore
  | no_data_available ↦ keystore
  | client_error ↦ keystore
  | error ↦ keystore
]

unfoldable pub has_key : SdkKeyStore → AuthorizedRequestContext → Bool
has_key keystore rc = contains_key rc keystore

unfoldable pub upsert : SdkKeyStore → AuthorizedRequestContext → ℕ → SdkKeyStore
upsert keystore rc lcut = elim (get rc keystore) [
  | some current_lcut ↦ if ltb current_lcut lcut then insert rc lcut keystore else keystore
  | none ↦ insert rc lcut keystore
]

unfoldable pub remove_key : SdkKeyStore → AuthorizedRequestContext → SdkKeyStore
remove_key keystore rc = remove rc keystore

unfoldable pub get_lcut : SdkKeyStore → AuthorizedRequestContext → Option ℕ
get_lcut keystore rc = get rc keystore

pub record SdkKeyStoreItem : Type 0 where
  pub request_context : AuthorizedRequestContext
  pub lcut : ℕ

unfoldable pub get_registered_store : SdkKeyStore → List SdkKeyStoreItem
get_registered_store keystore = map (λ e. record { request_context = e.0; lcut = e.1 }) keystore

-- The largest of the stored lcut, if any, and a new one.
abbrev pub newest : Option ℕ → ℕ → ℕ
newest none lcut = lcut
newest (some v) lcut = if ltb v lcut then lcut else v

-- `upsert` registers the key with the larger of its lcut and the new one, and no other key changes.
pub get_lcut-upsert :
    (keystore : SdkKeyStore) (rc other : AuthorizedRequestContext) (lcut : ℕ)
    → get_lcut (upsert keystore rc lcut) other ≡ (
        if context_eq rc other
        then some (newest (get_lcut keystore rc) lcut)
        else get_lcut keystore other)
unfolding upsert get_lcut
get_lcut-upsert keystore rc other lcut = elim (Option-cases (get rc keystore)) [
  | inl missing ↦
      rw (missing, upsert)
        (ground (arith, get-insert other rc lcut keystore, get_congr rc other keystore))
  | inr (v, found) ↦
      rw (found, upsert)
        (ground (arith, get-insert other rc lcut keystore, get_congr rc other keystore))
]

-- What an observed response makes of the stored lcut of its key.
abbrev pub observed : AuthorizedRequestContext → ResponseContext → Option ℕ → Option ℕ
observed rc response current = elim response.result_type [
  | data_available ↦ some (if rc.use_lcut then newest current response.lcut else response.lcut)
  | unauthorized ↦ none
  | no_data_available ↦ current
  | client_error ↦ current
  | error ↦ current
]

-- `update` changes its own key only: data raises the lcut to that of the response, or sets it where
-- the request does not use the lcut; an unauthorized response forgets the key; any other response
-- changes nothing.
pub get_lcut-update :
    (keystore : SdkKeyStore) (rc other : AuthorizedRequestContext) (response : ResponseContext)
    → get_lcut (update keystore rc response) other ≡ (
        if context_eq rc other
        then observed rc response (get_lcut keystore rc)
        else get_lcut keystore other)
unfolding update get_lcut
get_lcut-update keystore rc other response = elim (Option-cases (get rc keystore)) [
  | inl missing ↦ ground (
    arith,
    get-insert other rc response.lcut keystore,
    get-remove other rc keystore,
    get_congr rc other keystore,
  )
  | inr (v, found) ↦ ground (
    arith,
    get-insert other rc response.lcut keystore,
    get-remove other rc keystore,
    get_congr rc other keystore,
  )
]

pub data Op : Type 0 where
  observes : AuthorizedRequestContext → ResponseContext → Op
  upserts : AuthorizedRequestContext → ℕ → Op
  removes : AuthorizedRequestContext → Op

unfoldable pub step : SdkKeyStore → Op → SdkKeyStore
step keystore (observes rc response) = update keystore rc response
step keystore (upserts rc lcut) = upsert keystore rc lcut
step keystore (removes rc) = remove_key keystore rc

unfoldable pub run : SdkKeyStore → List Op → SdkKeyStore
unfolding step
run keystore [] = keystore
run keystore (op ∷ ops) = run (step keystore op) ops

abbrev is_unauthorized : DataProviderRequestResult → Bool
is_unauthorized unauthorized = true
is_unauthorized _ = false

-- The operation neither removes the key, nor reports it unauthorized, nor comes from a request that
-- does not use the lcut.
abbrev pub keeps : AuthorizedRequestContext → Op → Bool
keeps k (observes rc response) =
    not (context_eq rc k) || (rc.use_lcut && not (is_unauthorized response.result_type))
keeps k (upserts rc lcut) = true
keeps k (removes rc) = not (context_eq rc k)

-- The key is registered with an lcut of at least `m`.
abbrev pub AtLeast : ℕ → Option ℕ → Type 0
AtLeast m none = ⊥
AtLeast m (some n) = m ≤ n

same_key :
    (rc k : AuthorizedRequestContext) (keystore : SdkKeyStore)
    → context_eq rc k ≡ true
    → get_lcut keystore rc ≡ get_lcut keystore k
unfolding get_lcut
same_key rc k keystore h = get_congr rc k keystore h

get_lcut-remove_key :
    (keystore : SdkKeyStore) (rc other : AuthorizedRequestContext)
    → get_lcut (remove_key keystore rc) other
      ≡ (if context_eq rc other then none else get_lcut keystore other)
unfolding get_lcut remove_key
get_lcut-remove_key keystore rc other = get-remove other rc keystore

step-AtLeast :
    (k : AuthorizedRequestContext) (m : ℕ) (keystore : SdkKeyStore) (op : Op)
    → keeps k op ≡ true
    → AtLeast m (get_lcut keystore k)
    → AtLeast m (get_lcut (step keystore op) k)
unfolding step remove_key
step-AtLeast k m keystore (observes rc response) h a =
    rw (get_lcut-update keystore rc k response) (ground (arith, same_key rc k keystore))
step-AtLeast k m keystore (upserts rc lcut) h a =
    rw (get_lcut-upsert keystore rc k lcut) (ground (arith, same_key rc k keystore))
step-AtLeast k m keystore (removes rc) h a = rw (get_lcut-remove_key keystore rc k) (ground arith)

-- Over any history of operations that keep a key, the lcut it is polled with never falls, and the
-- key stays registered.
pub run-AtLeast :
    (k : AuthorizedRequestContext) (m : ℕ) (keystore : SdkKeyStore) (ops : List Op)
    → all (keeps k) ops ≡ true
    → AtLeast m (get_lcut keystore k)
    → AtLeast m (get_lcut (run keystore ops) k)
unfolding run
run-AtLeast k m keystore [] h a = a
run-AtLeast k m keystore (op ∷ ops) h a = elim (Bool-cases (keeps k op)) [
  | inl kept ↦
      run-AtLeast k m (step keystore op) ops (ground arith) (step-AtLeast k m keystore op kept a)
  | inr lost ↦ absurd (ground arith)
]
