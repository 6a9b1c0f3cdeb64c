-- ===== src/Prelude/Equality.antt =====
-- Go's `==` on the types that serve as keys of its maps.
use Prim.Native.String.{String}
use Prim.Native.Nat.{ℕ}
use text.Mathlib.TextEquality.{eq_iff}
use text.Mathlib.Text.{◌==◌ as text_eq}
use native.Mathlib.Omega.{arith}
use mathlib.Core.Bool.{Bool, true, false}
use mathlib.Core.Logic.{◌↔◌}
use mathlib.Core.Path.{◌≡◌, refl}
use proxima_scheduler.Prelude.Tests.{nat_beq, nat_beq_iff}

-- A Boolean test that decides equality.
pub record Comparable {ℓ} (K : Type ℓ) : Type ℓ where
  pub equals : K → K → Bool
  pub equals_iff : (x y : K) → (equals x y ≡ true) ↔ (x ≡ y)

instance abbrev pub string_eq : Comparable String
string_eq = record { equals_iff = eq_iff; equals = text_eq }

instance abbrev pub nat_eq : Comparable ℕ
nat_eq = record { equals_iff = nat_beq_iff; equals = nat_beq }

module _ {ℓ} {K : Type ℓ} ⦃c : Comparable K⦄ where
  infix 50 ◌==◌
  abbrev pub ◌==◌ : K → K → Bool
  x == y = c.equals x y

  pub beq_refl : (x : K) → (x == x) ≡ true
  beq_refl x = (c.equals_iff x x).1 refl

  pub beq_ne : (x y : K) → ((x == y) ≡ false) ↔ (¬ (x ≡ y))
  beq_ne x y = (λ h p. ground (arith, c.equals_iff x y), λ n. ground (arith, c.equals_iff x y))
