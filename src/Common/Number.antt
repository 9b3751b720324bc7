-- ===== src/Common/Number.antt =====
-- Numbers of the language that need not be whole: losses, weights, speeds, times, coordinates.
-- The operations are a parameter: IEEE doubles other than NaN meet what `NumberLaws` asks, the two
-- zeros taken for one.
pub mod Hundredths
use mathlib.Core.Path.{◌≡◌}
use mathlib.Core.Logic.{◌⊎◌}
use mathlib.Core.Bool.{Bool, true, false, not, ◌&&◌}
use Prim.Native.Nat.{ℕ}
use fast_share.Common.Tests.{if◌then◌else◌, leb}

pub record Number (N : Type 0) : Type 0 where
  -- a whole literal, and the literal m / 10^k
  pub of_nat : ℕ → N
  pub lit : ℕ → ℕ → N
  pub add : N → N → N
  pub sub : N → N → N
  pub mul : N → N → N
  pub div : N → N → N
  pub le : N → N → Bool
  pub round : N → N

module _ {N : Type 0} ⦃num : Number N⦄ where
  abbrev pub lt : N → N → Bool
  lt a b = not (num.le b a)

  abbrev pub eq : N → N → Bool
  eq a b = num.le a b && num.le b a

  -- `Math.max`, `Math.min`
  unfoldable pub max_of : N → N → N
  max_of a b = if num.le a b then b else a

  unfoldable pub min_of : N → N → N
  min_of a b = if num.le a b then a else b

-- What a number divided by a positive one, and the rest above a number, are.
pub record QuotientLaws {N : Type 0} (num : Number N) : Type 0 where
  pub nonneg_div :
      (a b : N)
      → num.le (num.of_nat 0) a ≡ true
      → num.le b (num.of_nat 0) ≡ false
      → num.le (num.of_nat 0) (num.div a b) ≡ true
  pub nonneg_sub : (a b : N) → num.le b a ≡ true → num.le (num.of_nat 0) (num.sub a b) ≡ true

-- The order is total, transitive, antisymmetric and that of the whole numbers on whole literals, addition is
-- monotone, and adding a non-negative literal does not lower a number.
pub record NumberLaws {N : Type 0} (num : Number N) : Type 0 where
  pub le_total : (a b : N) → (num.le a b ≡ true) ⊎ (num.le b a ≡ true)
  pub le_trans : (a b c : N) → num.le a b ≡ true → num.le b c ≡ true → num.le a c ≡ true
  pub le-add_lit : (a : N) (m k : ℕ) → num.le a (num.add a (num.lit m k)) ≡ true
  pub add_mono : (a b c : N) → num.le a b ≡ true → num.le (num.add a c) (num.add b c) ≡ true
  pub le-of_nat : (a b : ℕ) → num.le (num.of_nat a) (num.of_nat b) ≡ leb a b
  pub le_antisym : (a b : N) → num.le a b ≡ true → num.le b a ≡ true → a ≡ b
