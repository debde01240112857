-- ===== src/Prelude/Sort.antt =====
-- `slice::sort_by` and `Vec::dedup`. Rust's sort is stable, so its result is that of an insertion
-- sort; `leb a b` stands for `cmp(a, b) != Greater`.
use Prim.Native.Nat.{suc}
use mathlib.Core.Path.{◌≡◌, refl, ap, ◌∙◌}
use mathlib.Core.Bool.{Bool, true, false}
use mathlib.Core.List.{List, [], ◌∷◌, Perm}
use mathlib.Core.List.Perm
use mathlib.Core.Logic.{inl, inr}
use statsig_forward_proxy.Prelude.Tests.{if◌then◌else◌, Bool-cases}
use statsig_forward_proxy.Prelude.Lists.{length, All, All-map, any}
use native.Mathlib.Omega.{arith}

module _ {ℓ} {A : Type ℓ} where
  abbrev pub insert_sorted : (A → A → Bool) → A → List A → List A
  insert_sorted le x [] = x ∷ []
  insert_sorted le x (y ∷ ys) = if le x y then x ∷ y ∷ ys else y ∷ insert_sorted le x ys

  unfoldable pub sort_by : (A → A → Bool) → List A → List A
  sort_by le [] = []
  sort_by le (x ∷ xs) = insert_sorted le x (sort_by le xs)

  -- Every item comes before all that stand behind it.
  abbrev pub Ordered : (A → A → Bool) → List A → Type ℓ
  Ordered le [] = Unit
  Ordered le (x ∷ xs) = All (λ y. le x y ≡ true) xs × Ordered le xs

  All-insert_sorted {κ} :
      (P : A → Type κ) (le : A → A → Bool) (x : A) (xs : List A)
      → P x
      → All P xs
      → All P (insert_sorted le x xs)
  All-insert_sorted P le x [] hx h = (hx, tt)
  All-insert_sorted P le x (y ∷ ys) hx h = elim (Bool-cases (le x y)) [
    | inl e ↦ rw e (hx, h)
    | inr e ↦ rw e (h.0, All-insert_sorted P le x ys hx h.1)
  ]

  pub All-sort_by {κ} :
      (P : A → Type κ) (le : A → A → Bool) (xs : List A) → All P xs → All P (sort_by le xs)
  unfolding sort_by
  All-sort_by P le [] h = tt
  All-sort_by P le (x ∷ xs) h =
      All-insert_sorted P le x (sort_by le xs) h.0 (All-sort_by P le xs h.1)

  unpick {κ} :
      (P : A → Type κ) (le : A → A → Bool) (x y : A) (ys : List A) (first : Bool)
      → (All P (insert_sorted le x ys) → P x × All P ys)
      → All P (if first then x ∷ y ∷ ys else y ∷ insert_sorted le x ys)
      → P x × All P (y ∷ ys)
  unpick P le x y ys true f h = h
  unpick P le x y ys false f h = let (hx, rest) = f h.1 in (hx, (h.0, rest))

  All-uninsert_sorted {κ} :
      (P : A → Type κ) (le : A → A → Bool) (x : A) (xs : List A)
      → All P (insert_sorted le x xs)
      → P x × All P xs
  All-uninsert_sorted P le x [] h = h
  All-uninsert_sorted P le x (y ∷ ys) h =
      unpick P le x y ys (le x y) (All-uninsert_sorted P le x ys) h

  -- What holds of every item of the sorted list holds of every item of the list.
  pub All-unsort_by {κ} :
      (P : A → Type κ) (le : A → A → Bool) (xs : List A) → All P (sort_by le xs) → All P xs
  unfolding sort_by
  All-unsort_by P le [] h = tt
  All-unsort_by P le (x ∷ xs) h =
      let (hx, rest) = All-uninsert_sorted P le x (sort_by le xs) h in
      (hx, All-unsort_by P le xs rest)

  length-insert_sorted :
      (le : A → A → Bool) (x : A) (xs : List A) → length (insert_sorted le x xs) ≡ suc (length xs)
  length-insert_sorted le x [] = refl
  length-insert_sorted le x (y ∷ ys) = ground (arith, length-insert_sorted le x ys)

  pub length-sort_by : (le : A → A → Bool) (xs : List A) → length (sort_by le xs) ≡ length xs
  unfolding sort_by
  length-sort_by le [] = refl
  length-sort_by le (x ∷ xs) =
      length-insert_sorted le x (sort_by le xs) ∙ ap suc (length-sort_by le xs)

  insert_sorted-perm :
      (le : A → A → Bool) (x : A) (xs : List A) → Perm (insert_sorted le x xs) (x ∷ xs)
  insert_sorted-perm le x [] = Perm.refl (x ∷ [])
  insert_sorted-perm le x (y ∷ ys) = elim (Bool-cases (le x y)) [
    | inl e ↦ rw e (Perm.refl (x ∷ y ∷ ys))
    | inr e ↦ rw e (Perm.trans (Perm.cons y (insert_sorted-perm le x ys)) (Perm.swap x y ys))
  ]

  pub sort_by-perm : (le : A → A → Bool) (xs : List A) → Perm (sort_by le xs) xs
  unfolding sort_by
  sort_by-perm le [] = Perm.refl []
  sort_by-perm le (x ∷ xs) =
      Perm.trans (insert_sorted-perm le x (sort_by le xs)) (Perm.cons x (sort_by-perm le xs))

  module _ (le : A → A → Bool) (total : (a b : A) → le a b ≡ false → le b a ≡ true)
      (trans : (a b c : A) → le a b ≡ true → le b c ≡ true → le a c ≡ true) where
    insert_sorted-Ordered :
        (x : A) (xs : List A) → Ordered le xs → Ordered le (insert_sorted le x xs)
    insert_sorted-Ordered x [] h = (tt, tt)
    insert_sorted-Ordered x (y ∷ ys) h = elim (Bool-cases (le x y)) [
      | inl e ↦ rw e ((e, All-map _ _ ys (λ z p. trans x y z e p) h.0), h)
      | inr e ↦ rw e (
        All-insert_sorted (λ z. le y z ≡ true) le x ys (total x y e) h.0,
        insert_sorted-Ordered x ys h.1,
      )
    ]

    pub sort_by-Ordered : (xs : List A) → Ordered le (sort_by le xs)
    unfolding sort_by
    sort_by-Ordered [] = tt
    sort_by-Ordered (x ∷ xs) = insert_sorted-Ordered x (sort_by le xs) (sort_by-Ordered xs)

  -- A list in order is its own sort.
  pub sort_by-Ordered_self : (le : A → A → Bool) (xs : List A) → Ordered le xs → sort_by le xs ≡ xs
  unfolding sort_by
  sort_by-Ordered_self le [] h = refl
  sort_by-Ordered_self le (x ∷ []) h = refl
  sort_by-Ordered_self le (x ∷ y ∷ ys) h = rw (sort_by-Ordered_self le (y ∷ ys) h.1, h.0.0)

module _ {ℓ} {A : Type ℓ} where
  -- `Vec::dedup`: of equal neighbours the first stays. `last` is the item kept last.
  abbrev pub dedup_from : (A → A → Bool) → A → List A → List A
  dedup_from eq last [] = []
  dedup_from eq last (x ∷ xs) = if eq last x then dedup_from eq last xs else x ∷ dedup_from eq x xs

  unfoldable pub dedup : (A → A → Bool) → List A → List A
  dedup eq [] = []
  dedup eq (x ∷ xs) = x ∷ dedup_from eq x xs

-- Sorting and `dedup` change no answer of `any`.
module _ {ℓ} {A : Type ℓ} (p : A → Bool) where
  any-insert_sorted :
      (le : A → A → Bool) (x : A) (xs : List A) → any p (insert_sorted le x xs) ≡ any p (x ∷ xs)
  any-insert_sorted le x [] = refl
  any-insert_sorted le x (y ∷ ys) = ground (arith, any-insert_sorted le x ys)

  pub any-sort_by : (le : A → A → Bool) (xs : List A) → any p (sort_by le xs) ≡ any p xs
  unfolding sort_by
  any-sort_by le [] = refl
  any-sort_by le (x ∷ xs) =
      ground (arith, any-insert_sorted le x (sort_by le xs), any-sort_by le xs)

  module _ (eq : A → A → Bool) (congr : (a b : A) → eq a b ≡ true → p a ≡ p b) where
    any-dedup_from :
        (last : A) (xs : List A) → any p (last ∷ dedup_from eq last xs) ≡ any p (last ∷ xs)
    any-dedup_from last [] = refl
    any-dedup_from last (x ∷ xs) =
        ground (arith, any-dedup_from last xs, any-dedup_from x xs, congr last x)

    pub any-dedup : (xs : List A) → any p (dedup eq xs) ≡ any p xs
    unfolding dedup
    any-dedup [] = refl
    any-dedup (x ∷ xs) = any-dedup_from x xs
