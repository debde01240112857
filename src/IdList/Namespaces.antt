-- ===== src/IdList/Namespaces.antt =====
-- `namespaces.rs`: the companies of the configured keys, and for each company the union of the
-- manifests of its keys. The entries are those of `datastore/id_list_manifest.rs`.
pub mod Union
use mathlib.Core.Logic.{inl, inr}
use statsig_forward_proxy.Prelude.{
  ℕ, ◌+◌, Bool, true, false, ◌||◌, Option, none, some, List, [], ◌∷◌, ◌⊎◌, Text, text_beq, text_leb,
  text_eq, ltb, ◌==◌, if◌then◌else◌, Map, get, insert, map, length, retain, unwrap_or,
}

pub record IdListManifestEntry : Type 0 where
  pub name : Text
  pub size : ℕ
  pub url : Text
  pub creation_time : ℕ
  pub file_id : Text

abbrev pub IdListManifest : Type 0
IdListManifest = Map Text IdListManifestEntry

pub record CompanyManifest : Type 0 where
  pub lists : IdListManifest
  pub incomplete : Bool

pub record NamespaceCollision : Type 0 where
  pub namespace : Text
  pub company_ids : List Text

-- `BTreeSet::insert`, and `entry(namespace).or_default().insert(id)` of a `BTreeMap`: lists in order.
abbrev insert_sorted : Text → List Text → List Text
insert_sorted x [] = x ∷ []
insert_sorted x (y ∷ ys) =
    let rest = insert_sorted x ys in
    if text_beq x y then y ∷ ys else if text_leb x y then x ∷ y ∷ ys else y ∷ rest

abbrev pub Owners : Type 0
Owners = List (Text × List Text)

abbrev add_owner : Text → Text → Owners → Owners
add_owner namespace id [] = (namespace, id ∷ []) ∷ []
add_owner namespace id ((n, ids) ∷ owners) =
    let rest = add_owner namespace id owners in
    if text_beq namespace n
    then (n, insert_sorted id ids) ∷ owners
    else if text_leb namespace n
    then (namespace, id ∷ []) ∷ (n, ids) ∷ owners
    else (n, ids) ∷ rest

-- Whether the entry of another key takes the place of the one that is there.
unfoldable pub replaces : IdListManifestEntry → IdListManifestEntry → Bool
replaces entry previous =
    if text_beq previous.file_id entry.file_id
    then ltb previous.size entry.size
      || (if previous.size == entry.size
          then ltb previous.creation_time entry.creation_time
          else false)
    else ltb previous.creation_time entry.creation_time
      || (if previous.creation_time == entry.creation_time
          then text_leb previous.file_id entry.file_id
          else false)

unfoldable pub add_entry : Text → IdListManifestEntry → IdListManifest → IdListManifest
unfolding replaces
add_entry name entry lists = elim (get name lists) [
  | none ↦ insert name entry lists
  | some previous ↦ if replaces entry previous then insert name entry lists else lists
]

unfoldable pub add_manifest : IdListManifest → IdListManifest → IdListManifest
unfolding add_entry
add_manifest [] lists = lists
add_manifest ((name, entry) ∷ manifest) lists = add_manifest manifest (add_entry name entry lists)

abbrev pub or_default : Option CompanyManifest → CompanyManifest
or_default company = unwrap_or company (record { lists = []; incomplete = false })

-- The variables of the loop over the keys.
pub record Planned : Type 0 where
  pub companies : Map Text CompanyManifest
  pub unavailable : ℕ
  pub unknown_company : Bool

-- An unresolved key could belong to any company.
abbrev pub mark_incomplete : Map Text CompanyManifest → Map Text CompanyManifest
mark_incomplete [] = []
mark_incomplete ((namespace, company) ∷ companies) =
    (namespace, record company { incomplete = true }) ∷ mark_incomplete companies

-- The plan, unless there are collisions.
abbrev pub unless_collided :
    List NamespaceCollision
    → Map Text CompanyManifest × ℕ
    → List NamespaceCollision ⊎ (Map Text CompanyManifest × ℕ)
unless_collided [] plan = inr plan
unless_collided (c ∷ cs) plan = inl (c ∷ cs)

-- `hash_company_id` is the parameter `namespace_of`.
module _ (namespace_of : Text → Text) where
  unfoldable pub owners_of : List (Text × Option Text) → Owners → Owners
  owners_of [] owners = owners
  owners_of ((key, none) ∷ identities) owners = owners_of identities owners
  owners_of ((key, some company_id) ∷ identities) owners =
      owners_of identities (add_owner (namespace_of company_id) company_id owners)

  unfoldable pub collisions_of : List (Text × Option Text) → List NamespaceCollision
  unfolding owners_of
  collisions_of identities =
      map (λ o. record { namespace = o.0; company_ids = o.1 })
        (retain (λ o. ltb 1 (length o.1)) (owners_of identities []))

  unfoldable pub plan_key : Map Text IdListManifest → Text → Option Text → Planned → Planned
  unfolding add_manifest
  plan_key snapshots key none p = record p {
    unavailable = p.unavailable + 1;
    unknown_company = true;
  }
  plan_key snapshots key (some company_id) p =
      let namespace = namespace_of company_id in
      let company = or_default (get namespace p.companies) in
      elim (get key snapshots) [
        | none ↦ record p {
          unavailable = p.unavailable + 1;
          companies = insert namespace (record company { incomplete = true }) p.companies;
        }
        | some manifest ↦ record p {
          companies =
              insert namespace (record company { lists = add_manifest manifest company.lists })
                p.companies;
        }
      ]

  unfoldable pub plan_keys : Map Text IdListManifest → List (Text × Option Text) → Planned → Planned
  unfolding plan_key
  plan_keys snapshots [] p = p
  plan_keys snapshots ((key, company_id) ∷ identities) p =
      plan_keys snapshots identities (plan_key snapshots key company_id p)

  -- The companies by namespace, and how many keys have no snapshot. `get_company_id` is what has been
  -- discovered, `snapshots` the latest manifests.
  unfoldable pub company_manifests :
      List Text
      → (Text → Option Text)
      → Map Text IdListManifest
      → List NamespaceCollision ⊎ (Map Text CompanyManifest × ℕ)
  unfolding collisions_of plan_keys
  company_manifests server_keys get_company_id snapshots =
      let identities = map (λ key. (key, get_company_id key)) server_keys in
      let p =
        plan_keys snapshots identities
          (record { companies = []; unavailable = 0; unknown_company = false }) in
      unless_collided (collisions_of identities)
        (if p.unknown_company then mark_incomplete p.companies else p.companies, p.unavailable)
