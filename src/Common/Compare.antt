-- ===== src/Common/Compare.antt =====
-- Boolean equality as an interface: numbers (identifiers), texts, and pairs of such.
use Prim.Native.Nat.{ℕ}
use Prim.Native.String.{String}
use mathlib.Core.Path.{◌≡◌, refl}
use mathlib.Core.Logic.{◌↔◌}
use mathlib.Core.Bool.{Bool, true, ◌&&◌}
use native.Mathlib.Omega.{arith}
use pfm_go.Common.Tests.{nat_eqb, nat_eqb_iff}
use text.Mathlib.TextEquality.{eq_iff}
use text.Mathlib.Text.{◌==◌ as str_eq}

-- A type whose values can be compared by a test.
pub record Equality {ℓ} (A : Type ℓ) : Type ℓ where
  pub equals : A → A → Bool
  pub equals_iff : (x y : A) → (equals x y ≡ true) ↔ (x ≡ y)

instance abbrev pub string_eq : Equality String
string_eq = record { equals = str_eq; equals_iff = eq_iff }

instance abbrev pub nat_eq : Equality ℕ
nat_eq = record { equals = nat_eqb; equals_iff = nat_eqb_iff }

module _ {ℓ} {A : Type ℓ} ⦃q : Equality A⦄ where
  infix 50 ◌==◌
  abbrev pub ◌==◌ : A → A → Bool
  ◌==◌ = q.equals

  pub ==_iff : (x y : A) → ((x == y) ≡ true) ↔ (x ≡ y)
  ==_iff = q.equals_iff

  pub ==_refl : (x : A) → (x == x) ≡ true
  ==_refl x = (q.equals_iff x x).1 refl

module _ {ℓ κ} {A : Type ℓ} {B : Type κ} ⦃e : Equality A⦄ ⦃f : Equality B⦄ where
  abbrev pub pair_equals : A × B → A × B → Bool
  pair_equals (a, b) (c, d) = a == c && b == d

  pub pair_equals_iff : (p q : A × B) → (pair_equals p q ≡ true) ↔ (p ≡ q)
  pair_equals_iff (a, b) (c, d) = ground (arith, e.equals_iff a c, f.equals_iff b d)

  instance abbrev pub pair_eq : Equality (A × B)
  pair_eq = record { equals = pair_equals; equals_iff = pair_equals_iff }
