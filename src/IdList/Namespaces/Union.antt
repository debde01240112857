-- ===== src/IdList/Namespaces/Union.antt =====
-- The lists that `company_manifests` plans for.
use mathlib.Core.Logic.{inl, inr}
use statsig_forward_proxy.Prelude.{
  ℕ, ◌≡◌, ◌∙◌, refl, sym, ap, Bool, true, false, ◌||◌, ◌&&◌, Option, none, some, List, [], ◌∷◌,
  arith, Text, text_beq, text_eq, text_beq_sound, if◌then◌else◌, Map, get, insert, contains_key,
  get-insert, is_some, any, Option-cases, Bool-cases, map,
}
use statsig_forward_proxy.IdList.Namespaces.{
  IdListManifestEntry, IdListManifest, CompanyManifest, replaces, add_entry, add_manifest,
  or_default, Planned, plan_key, plan_keys, company_manifests, NamespaceCollision, collisions_of,
  mark_incomplete, unless_collided,
}

inserted :
    (n m : Text) (e : IdListManifestEntry) (l : IdListManifest)
    → contains_key n (insert m e l) ≡ text_beq m n || contains_key n l
inserted n m e l = elim (Bool-cases (text_beq m n)) [
  | inl h ↦ rw (get-insert n m e l, h) refl
  | inr h ↦ rw (get-insert n m e l, h) refl
]

add_entry-contains_key :
    (n m : Text) (e : IdListManifestEntry) (l : IdListManifest)
    → contains_key n (add_entry m e l) ≡ text_beq m n || contains_key n l
unfolding add_entry
add_entry-contains_key n m e l = elim (Option-cases (get m l)) [
  | inl h ↦ rw (add_entry, h) (inserted n m e l)
  | inr (previous, h) ↦ elim (Bool-cases (replaces e previous)) [
    | inl r ↦ rw (add_entry, h, r) (inserted n m e l)
    | inr r ↦
        rw (add_entry, h, r)
          (elim (Bool-cases (text_beq m n)) [
            | inl b ↦
                let there : contains_key n l ≡ true =
                  ap (λ k. contains_key k l) (sym (text_beq_sound m n b)) ∙ ap is_some h in
                rw (b, there) refl
            | inr b ↦ rw b refl
          ])
  ]
]

add_manifest-contains_key :
    (n : Text) (manifest l : IdListManifest)
    → contains_key n (add_manifest manifest l) ≡ contains_key n manifest || contains_key n l
unfolding add_manifest get
add_manifest-contains_key n [] l = refl
add_manifest-contains_key n ((m, e) ∷ manifest) l =
    add_manifest-contains_key n manifest (add_entry m e l)
    ∙ rw (add_entry-contains_key n m e l) (by_test (text_beq m n))
  where
    by_test :
        (b : Bool)
        → contains_key n manifest || (b || contains_key n l)
          ≡ is_some (if b then some e else get n manifest) || contains_key n l
    by_test true = ground arith
    by_test false = refl

-- Whether the map plans a list for a namespace.
abbrev pub planned : Text → Text → Map Text CompanyManifest → Bool
planned namespace name companies = contains_key name (or_default (get namespace companies)).lists

module _ (namespace_of : Text → Text) (snapshots : Map Text IdListManifest) where
  -- Whether a key of the company with the namespace has a manifest with the list.
  abbrev pub sees : Text → Text → Text → Option Text → Bool
  sees namespace name key none = false
  sees namespace name key (some company_id) =
      text_beq (namespace_of company_id) namespace
      && elim (get key snapshots) [ none ↦ false | some manifest ↦ contains_key name manifest ]

  plan_key-planned :
      (ns n key : Text) (id : Option Text) (p : Planned)
      → planned ns n (plan_key namespace_of snapshots key id p).companies
        ≡ planned ns n p.companies || sees ns n key id
  unfolding plan_key
  plan_key-planned ns n key none p = ground arith
  plan_key-planned ns n key (some id) p = elim (Option-cases (get key snapshots)) [
    | inl h ↦
        rw (plan_key, h, get-insert ns (namespace_of id))
          (elim (Bool-cases (text_beq (namespace_of id) ns)) [
            | inl b ↦ rw (b, same b) (ground arith)
            | inr b ↦ rw b (ground arith)
          ])
    | inr (manifest, h) ↦
        rw (plan_key, h, get-insert ns (namespace_of id))
          (elim (Bool-cases (text_beq (namespace_of id) ns)) [
            | inl b ↦
                rw (b, same b)
                  (add_manifest-contains_key n manifest
                      (or_default (get (namespace_of id) p.companies)).lists
                    ∙ ground arith)
            | inr b ↦ rw b (ground arith)
          ])
  ]
    where
      same :
          text_beq (namespace_of id) ns ≡ true
          → get ns p.companies ≡ get (namespace_of id) p.companies
      same b = ap (λ k. get k p.companies) (sym (text_beq_sound (namespace_of id) ns b))

  plan_keys-planned :
      (ns n : Text) (identities : List (Text × Option Text)) (p : Planned)
      → planned ns n (plan_keys namespace_of snapshots identities p).companies
        ≡ planned ns n p.companies || any (λ i. sees ns n i.0 i.1) identities
  unfolding plan_keys
  plan_keys-planned ns n [] p = ground arith
  plan_keys-planned ns n ((key, id) ∷ is) p =
      plan_keys-planned ns n is (plan_key namespace_of snapshots key id p)
      ∙ (ap (λ b. b || any (λ i. sees ns n i.0 i.1) is) (plan_key-planned ns n key id p)
          ∙ ground arith)

planned-mark_incomplete :
    (ns n : Text) (companies : Map Text CompanyManifest)
    → planned ns n (mark_incomplete companies) ≡ planned ns n companies
unfolding get
planned-mark_incomplete ns n [] = refl
planned-mark_incomplete ns n ((m, c) ∷ companies) = elim (Bool-cases (text_beq m ns)) [
  | inl h ↦ rw h refl
  | inr h ↦ rw h (planned-mark_incomplete ns n companies)
]

marked :
    (ns n : Text) (b : Bool) (companies : Map Text CompanyManifest)
    → planned ns n (if b then mark_incomplete companies else companies) ≡ planned ns n companies
marked ns n true companies = planned-mark_incomplete ns n companies
marked ns n false companies = refl

not_collided :
    (cs : List NamespaceCollision) (plan r : Map Text CompanyManifest × ℕ)
    → unless_collided cs plan ≡ inr r
    → plan ≡ r
not_collided [] plan r h = cc
not_collided (c ∷ cs) plan r h = cc

any-map :
    (f : Text → Text × Option Text) (p : Text × Option Text → Bool) (xs : List Text)
    → any p (map f xs) ≡ any (λ x. p (f x)) xs
any-map f p [] = refl
any-map f p (x ∷ xs) = ap (λ b. if p (f x) then true else b) (any-map f p xs)

-- If `company_manifests` reports no collision, the lists that it plans for a namespace are exactly
-- those that some configured key with that namespace has in its latest manifest.
pub company_manifests-union :
    (namespace_of : Text → Text) (server_keys : List Text) (get_company_id : Text → Option Text)
    (snapshots : Map Text IdListManifest) (r : Map Text CompanyManifest × ℕ) (ns n : Text)
    → company_manifests namespace_of server_keys get_company_id snapshots ≡ inr r
    → planned ns n r.0
      ≡ any (λ key. sees namespace_of snapshots ns n key (get_company_id key)) server_keys
unfolding company_manifests get
company_manifests-union namespace_of server_keys get_company_id snapshots r ns n h =
    let is : List (Text × Option Text) = map (λ key. (key, get_company_id key)) server_keys in
    let p0 : Planned = record { companies = []; unavailable = 0; unknown_company = false } in
    let p = plan_keys namespace_of snapshots is p0 in
    sym (ap (λ q. planned ns n q.0) (not_collided (collisions_of namespace_of is) _ r h))
    ∙ (marked ns n p.unknown_company p.companies
        ∙ (plan_keys-planned namespace_of snapshots ns n is p0
            ∙ any-map (λ key. (key, get_company_id key))
                (λ i. sees namespace_of snapshots ns n i.0 i.1) server_keys))
