-- ===== src/Core/Float.antt =====
-- `float` of C. Its values and operations are a parameter of the model: an IEEE 754 single, whose
-- operations round, and whose comparisons are false at a NaN.
pub mod Milli
use esp32_iot_products.Prelude.{ℕ, Bool}
use esp32_iot_products.Prelude.Int.{ℤ}
use esp32_iot_products.CText.{Text}

pub record Float (F : Type 0) : Type 0 where
  -- the constant nearest to n / d
  pub lit : ℕ → ℕ → F
  -- `a > b` and `a >= b`
  pub gt : F → F → Bool
  pub ge : F → F → Bool
  pub add : F → F → F
  pub mul : F → F → F
  pub div : F → F → F
  pub fabs : F → F
  -- `(float)z`, and `(int32_t)x`
  pub of_int : ℤ → F
  pub to_int : F → ℤ
  -- `(float)atof(s)`
  pub atof : Text → F
  -- `%.nf` of printf
  pub fixed : ℕ → F → Text

module _ {F : Type 0} ⦃fl : Float F⦄ where
  -- `a < b` and `a <= b`
  abbrev pub lt : F → F → Bool
  lt a b = fl.gt b a

  abbrev pub le : F → F → Bool
  le a b = fl.ge b a

  -- a constant with no fraction
  abbrev pub whole : ℕ → F
  whole n = fl.lit n 1
