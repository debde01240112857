-- ===== src/Prelude/Maps.antt =====
-- `HashMap` and `DashMap` as association lists with one entry for a key, in an order of no meaning.
-- As in Rust, an insert at a key that is there keeps the stored key.
use mathlib.Core.Path.{◌≡◌, refl}
use mathlib.Core.Bool.{Bool, true}
use mathlib.Core.Option.{Option, none, some}
use mathlib.Core.List.{List, [], ◌∷◌}
use native.Mathlib.Omega.{arith}
use statsig_forward_proxy.Prelude.Tests.{if◌then◌else◌, is_some}
use statsig_forward_proxy.Prelude.Keys.{Eq, beq_symm}

abbrev pub Map {ℓ κ} : Type ℓ → Type κ → Type (ℓ ⊔ κ)
Map K V = List (K × V)

module _ {ℓ κ} {K : Type ℓ} {V : Type κ} ⦃e : Eq K⦄ where
  unfoldable pub get : K → Map K V → Option V
  get k [] = none
  get k ((j, v) ∷ m) = if e.beq j k then some v else get k m

  unfoldable pub insert : K → V → Map K V → Map K V
  insert k v [] = (k, v) ∷ []
  insert k v ((j, w) ∷ m) = if e.beq j k then (j, v) ∷ m else (j, w) ∷ insert k v m

  unfoldable pub remove : K → Map K V → Map K V
  remove k [] = []
  remove k ((j, w) ∷ m) = if e.beq j k then remove k m else (j, w) ∷ remove k m

  abbrev pub contains_key : K → Map K V → Bool
  contains_key k m = is_some (get k m)

  pub get-insert :
      (j k : K) (v : V) (m : Map K V)
      → get j (insert k v m) ≡ (if e.beq k j then some v else get j m)
  unfolding get insert
  get-insert j k v [] = refl
  get-insert j k v ((i, w) ∷ m) =
      ground (arith, e.beq_congr i k j, e.beq_congr i j k, beq_symm j k, get-insert j k v m)

  pub get-remove :
      (j k : K) (m : Map K V) → get j (remove k m) ≡ (if e.beq k j then none else get j m)
  unfolding get remove
  get-remove j k [] = ground arith
  get-remove j k ((i, w) ∷ m) =
      ground (arith, e.beq_congr i k j, e.beq_congr i j k, beq_symm j k, get-remove j k m)

  pub get-insert_self : (k : K) (v : V) (m : Map K V) → get k (insert k v m) ≡ some v
  get-insert_self k v m = rw (get-insert, e.beq_refl k)

  pub get-remove_self : (k : K) (m : Map K V) → get k (remove k m) ≡ none
  get-remove_self k m = rw (get-remove, e.beq_refl k)

  -- Equal keys read the same entry.
  pub get_congr : (j k : K) (m : Map K V) → e.beq j k ≡ true → get j m ≡ get k m
  unfolding get
  get_congr j k [] h = refl
  get_congr j k ((i, w) ∷ m) h =
      ground (arith, e.beq_congr j k i, beq_symm i j, beq_symm i k, get_congr j k m h)
