-- ===== src/Prelude/Keys.antt =====
-- The keys of the program's hash maps: an equality test that is an equivalence, as Rust's `Eq`
-- asks, and need not be the equality of the values.
use mathlib.Core.Path.{◌≡◌}
use mathlib.Core.Bool.{Bool, true}
use native.Mathlib.Omega.{arith}

pub record Eq {ℓ} (A : Type ℓ) : Type ℓ where
  pub beq : A → A → Bool
  pub beq_refl : (a : A) → beq a a ≡ true
  -- No third key tells apart two keys that the test calls equal.
  pub beq_congr : (a b c : A) → beq a b ≡ true → beq a c ≡ beq b c

pub beq_symm {ℓ} : {A : Type ℓ} ⦃e : Eq A⦄ (a b : A) → e.beq a b ≡ e.beq b a
beq_symm ⦃e⦄ a b = ground (arith, e.beq_congr a b a, e.beq_refl a, e.beq_congr b a b, e.beq_refl b)
