-- ===== src/Common/Float.antt =====
-- Python's `float`, which the language's runtime implements: a carrier with the operations that the
-- program uses, and the laws of the order of the finite floats. `lit n` is the literal n / 100.
use smart_traffic_management.Common.Tests.{if◌then◌else◌, ltb}
use Prim.Native.Nat.{ℕ, ◌+◌, ◌-◌, ◌*◌, ◌/◌}
use mathlib.Core.Path.{◌≡◌}
use mathlib.Core.Bool.{Bool, true, false}
use mathlib.Core.List.{List, [], ◌∷◌}
use native.Mathlib.Omega.{arith}

-- An `int`; `negsuc n` is -(n + 1).
pub data ℤ : Type 0 where
  pos : ℕ → ℤ
  negsuc : ℕ → ℤ

pub record Float (F : Type 0) : Type 0 where
  pub lit : ℕ → F
  pub add : F → F → F
  pub sub : F → F → F
  pub mul : F → F → F
  pub div : F → F → F
  pub lt : F → F → Bool
  -- `round(x, 4)`, `round(x, 2)`, `round(x, 1)`, and the integer `round(x)`
  pub round4 : F → F
  pub round2 : F → F
  pub round1 : F → F
  pub round : F → ℤ

-- The order of floats that are no NaN.
pub record FloatOrder (F : Type 0) ⦃fl : Float F⦄ : Type 0 where
  pub lt_asymm : (a b : F) → fl.lt a b ≡ true → fl.lt b a ≡ false
  pub ge_trans : (a b c : F) → fl.lt a b ≡ false → fl.lt b c ≡ false → fl.lt a c ≡ false

module _ {F : Type 0} ⦃fl : Float F⦄ where
  -- `float(n)`
  abbrev pub of_ℕ : ℕ → F
  of_ℕ n = fl.lit (n * 100)

  abbrev pub fl_zero : F
  fl_zero = fl.lit 0

  -- `max(a, b)`, `min(a, b)`: the first argument unless the second is beyond it
  abbrev pub fl_max : F → F → F
  fl_max a b = if fl.lt a b then b else a

  abbrev pub fl_min : F → F → F
  fl_min a b = if fl.lt b a then b else a

  -- `sum(xs)`, from the left
  abbrev pub sum_from : F → List F → F
  sum_from acc [] = acc
  sum_from acc (x ∷ xs) = sum_from (fl.add acc x) xs

-- Hundredths without a sign: a carrier on which the model runs.
instance abbrev pub hundredths : Float ℕ
hundredths = record {
  lit = λ n. n;
  add = λ a b. a + b;
  sub = λ a b. a - b;
  mul = λ a b. a * b / 100;
  div = λ a b. a * 100 / b;
  lt = ltb;
  round4 = λ a. a;
  round2 = λ a. a;
  round1 = λ a. a / 10 * 10;
  round = λ a. pos ((a + 50) / 100);
}

ltb_asymm : (a b : ℕ) → ltb a b ≡ true → ltb b a ≡ false
ltb_asymm a b h = ground arith

geb_trans : (a b c : ℕ) → ltb a b ≡ false → ltb b c ≡ false → ltb a c ≡ false
geb_trans a b c h k = ground arith

pub hundredths-FloatOrder : FloatOrder ℕ
hundredths-FloatOrder = record { lt_asymm = ltb_asymm; ge_trans = geb_trans }
