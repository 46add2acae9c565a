-- ===== src/Common/Floats.antt =====
-- Python's floats where a computation depends on them: an interface, with what the arithmetic
-- promises of finite numbers. Rounding is monotone, so the order laws hold although sums and
-- products are rounded; no law says that a sum is exact.
use autonomous_rover_swarm_c.Common.Int.{ℤ, pos, negsuc}
use Prim.Native.Nat.{ℕ, suc}
use mathlib.Core.Path.{◌≡◌}
use mathlib.Core.Bool.{Bool, true, false, not}

pub record Floats {ℓ} (F : Type ℓ) : Type ℓ where
  pub of_nat : ℕ → F
  pub add : F → F → F
  pub sub : F → F → F
  pub mul : F → F → F
  -- by a number that is not zero
  pub div : F → F → F
  pub lt : F → F → Bool
  pub le : F → F → Bool
  -- `int(x)`
  pub trunc : F → ℤ

module _ {ℓ} {F : Type ℓ} (fl : Floats F) where
  open fl use {of_nat, add, sub, mul, div, lt, le}

  -- An integer as a float.
  abbrev pub of_int : ℤ → F
  of_int (pos n) = of_nat n
  of_int (negsuc n) = sub (of_nat 0) (of_nat (suc n))

  -- What the comparisons and the arithmetic of finite floats promise.
  pub record IsOrdered : Type ℓ where
    pub le_refl : (a : F) → le a a ≡ true
    pub le_trans : (a b c : F) → le a b ≡ true → le b c ≡ true → le a c ≡ true
    pub lt-not : (a b : F) → lt a b ≡ not (le b a)
    pub le_total : (a b : F) → le a b ≡ false → le b a ≡ true
    pub of_nat-ge : (n : ℕ) → le (of_nat 0) (of_nat n) ≡ true
    pub add-ge : (a b : F) → le (of_nat 0) b ≡ true → le a (add a b) ≡ true
    pub sub-ge : (a b : F) → le b a ≡ true → le (of_nat 0) (sub a b) ≡ true
    pub sub-le : (a b : F) → le (of_nat 0) b ≡ true → le (sub a b) a ≡ true
    pub mul-ge :
        (a b : F) → le (of_nat 0) a ≡ true → le (of_nat 0) b ≡ true → le (of_nat 0) (mul a b) ≡ true
    pub div-ge :
        (a b : F) → le (of_nat 0) a ≡ true → le (of_nat 0) b ≡ true → le (of_nat 0) (div a b) ≡ true
