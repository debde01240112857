-- ===== src/Prelude/Derive.antt =====
-- The derived `PartialEq` of lists, options and scalars, and when a test decides equality.
use Prim.Native.Nat.{ℕ}
use mathlib.Core.Path.{◌≡◌, refl, ap}
use mathlib.Core.Bool.{Bool, true, false}
use mathlib.Core.Option.{Option, none, some}
use mathlib.Core.List.{List, [], ◌∷◌}
use native.Mathlib.Omega.{arith}
use statsig_forward_proxy.Prelude.Tests.{◌==◌, if◌then◌else◌}
use statsig_forward_proxy.Prelude.Keys.{Eq}

-- The test holds of equal values only.
abbrev pub IsSound {ℓ} : {A : Type ℓ} → (A → A → Bool) → Type ℓ
IsSound beq = (a b : _) → beq a b ≡ true → a ≡ b

abbrev pub bool_beq : Bool → Bool → Bool
bool_beq true b = b
bool_beq false true = false
bool_beq false false = true

module _ {ℓ} {A : Type ℓ} where
  abbrev pub list_beq : (A → A → Bool) → List A → List A → Bool
  list_beq eq [] [] = true
  list_beq eq [] (y ∷ ys) = false
  list_beq eq (x ∷ xs) [] = false
  list_beq eq (x ∷ xs) (y ∷ ys) = if eq x y then list_beq eq xs ys else false

  abbrev pub option_beq : (A → A → Bool) → Option A → Option A → Bool
  option_beq eq none none = true
  option_beq eq none (some b) = false
  option_beq eq (some a) none = false
  option_beq eq (some a) (some b) = eq a b

  pub list_beq_refl :
      (eq : A → A → Bool) → ((a : A) → eq a a ≡ true) → (xs : List A) → list_beq eq xs xs ≡ true
  list_beq_refl eq h [] = refl
  list_beq_refl eq h (x ∷ xs) = ground (arith, h x, list_beq_refl eq h xs)

  pub list_beq-IsSound : (eq : A → A → Bool) → IsSound eq → IsSound (list_beq eq)
  list_beq-IsSound eq h [] [] e = refl
  list_beq-IsSound eq h [] (y ∷ ys) e = cc
  list_beq-IsSound eq h (x ∷ xs) [] e = cc
  list_beq-IsSound eq h (x ∷ xs) (y ∷ ys) e = ground (arith, h x y, list_beq-IsSound eq h xs ys)

  pub option_beq_refl :
      (eq : A → A → Bool) → ((a : A) → eq a a ≡ true) → (o : Option A) → option_beq eq o o ≡ true
  option_beq_refl eq h none = refl
  option_beq_refl eq h (some a) = h a

  pub option_beq-IsSound : (eq : A → A → Bool) → IsSound eq → IsSound (option_beq eq)
  option_beq-IsSound eq h none none e = refl
  option_beq-IsSound eq h none (some b) e = cc
  option_beq-IsSound eq h (some a) none e = cc
  option_beq-IsSound eq h (some a) (some b) e = ap some (h a b e)

  -- A sound and reflexive test is a key's.
  abbrev pub eq_of_sound : (beq : A → A → Bool) → ((a : A) → beq a a ≡ true) → IsSound beq → Eq A
  eq_of_sound beq r s = record {
    beq = beq;
    beq_refl = r;
    beq_congr = λ a b c h. ap (λ x. beq x c) (s a b h);
  }

pub bool_beq_refl : (b : Bool) → bool_beq b b ≡ true
bool_beq_refl b = ground arith

pub bool_beq-IsSound : IsSound bool_beq
bool_beq-IsSound a b h = ground arith

pub nat_beq_refl : (a : ℕ) → (a == a) ≡ true
nat_beq_refl a = ground arith

pub nat_beq-IsSound : IsSound ◌==◌
nat_beq-IsSound a b h = ground arith

instance abbrev pub nat_eq : Eq ℕ
nat_eq = eq_of_sound ◌==◌ nat_beq_refl nat_beq-IsSound
