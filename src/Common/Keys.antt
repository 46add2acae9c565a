-- ===== src/Common/Keys.antt =====
-- Equality as Python's dictionaries and sets use it: an interface, with instances for numbers and
-- texts.
use autonomous_rover_swarm_c.Common.Tests.{eqb, eqb_iff}
use Prim.Native.Nat.{ℕ}
use Prim.Native.String.{String}
use mathlib.Core.Path.{◌≡◌, refl}
use mathlib.Core.Logic.{◌≢◌, ◌↔◌}
use mathlib.Core.Bool.{Bool, true, false}
use native.Mathlib.Omega.{arith}
use text.Mathlib.Text.{◌==◌ as str_eq}
use text.Mathlib.TextEquality.{eq_iff}

-- What can be a key or an element: a test that decides equality.
pub record Key {ℓ} (K : Type ℓ) : Type ℓ where
  pub beq : (k j : K) → Bool
  pub beq_iff : (k j : K) → (beq k j ≡ true) ↔ (k ≡ j)

instance abbrev pub string_eq : Key String
string_eq = record { beq = str_eq; beq_iff = eq_iff }

instance abbrev pub nat_eq : Key ℕ
nat_eq = record { beq = eqb; beq_iff = eqb_iff }

-- `k == j` and `k in d`, which hashes and compares
infix 50 ◌==◌
abbrev pub ◌==◌ {ℓ} : {K : Type ℓ} ⦃e : Key K⦄ → (k j : K) → Bool
◌==◌ ⦃e⦄ k j = e.beq k j

module _ {ℓ} {A : Type ℓ} ⦃e : Key A⦄ where
  pub beq_refl : (a : A) → (a == a) ≡ true
  beq_refl a = (e.beq_iff a a).1 refl

  pub beq_ne : (a b : A) → a ≢ b → (a == b) ≡ false
  beq_ne a b h = ground (arith, e.beq_iff a b)
