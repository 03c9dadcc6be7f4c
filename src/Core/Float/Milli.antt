-- ===== src/Core/Float/Milli.antt =====
-- Thousandths as floats: the concrete instance at which the tests run and the witnesses apply the
-- theorems. Results are cut off towards zero; there is no NaN.
use esp32_iot_products.CText.{Text, show_d}
use esp32_iot_products.Core.Float.{Float}
use esp32_iot_products.Prelude.Int.{ℤ, pos, pos_part, neg_part, sub_ℕ, ◌+ℤ◌, ◌*ℤ◌, ltb_ℤ, leb_ℤ}
use esp32_iot_products.Prelude.{
  if◌then◌else◌, ℕ, ◌-◌, ◌*◌, ◌+◌, leb, false, ◌/◌, true, [], Bool, suc, ◌&&◌, ◌==◌, ◌∷◌, ltb, zero,
}

abbrev pub Milli : Type 0
Milli = ℤ

-- The parts of a decimal text: digits up to the first other byte, with what stands behind.
pub read_digits : ℕ → Text → ℕ × Text
read_digits n [] = (n, [])
read_digits n (c ∷ s) =
    if leb 48 c && leb c 57 then read_digits (n * 10 + (c - 48)) s else (n, c ∷ s)

-- Three digits behind the point.
pub read_fraction : ℕ → ℕ → Text → ℕ
read_fraction zero n s = n
read_fraction (suc k) n [] = read_fraction k (n * 10) []
read_fraction (suc k) n (c ∷ s) =
    if leb 48 c && leb c 57
    then read_fraction k (n * 10 + (c - 48)) s
    else read_fraction k (n * 10) (c ∷ s)

pub after_point : Text → ℕ
unfolding read_fraction
after_point [] = 0
after_point (c ∷ s) = if c == 46 then read_fraction 3 0 s else 0

pub read_unsigned : Text → ℕ
unfolding read_digits after_point
read_unsigned s = let (n, rest) = read_digits 0 s in n * 1000 + after_point rest

pub read_signed : Text → Milli
unfolding read_unsigned
read_signed [] = pos 0
read_signed (c ∷ s) = if c == 45 then sub_ℕ 0 (read_unsigned s) else pos (read_unsigned (c ∷ s))

abbrev pub magnitude : Milli → ℕ
magnitude a = pos_part a + neg_part a

abbrev is_negative : Milli → Bool
is_negative a = ltb 0 (neg_part a)

-- The number with this magnitude, negative where just one of the two is.
abbrev pub signed_as : Milli → Milli → ℕ → Milli
signed_as a b n = elim (is_negative a) [
  | true ↦ if is_negative b then pos n else sub_ℕ 0 n
  | false ↦ if is_negative b then sub_ℕ 0 n else pos n
]

instance abbrev pub milli_float : Float Milli
milli_float = record {
  lit = λ n d. pos (n * 1000 / d);
  gt = λ a b. ltb_ℤ b a;
  ge = λ a b. leb_ℤ b a;
  add = ◌+ℤ◌;
  mul = λ a b. signed_as a b (magnitude a * magnitude b / 1000);
  div = λ a b. signed_as a b (magnitude a * 1000 / magnitude b);
  fabs = λ a. pos (magnitude a);
  of_int = λ z. z *ℤ pos 1000;
  to_int = λ a. signed_as a (pos 0) (magnitude a / 1000);
  atof = read_signed;
  fixed = λ n a. show_d (signed_as a (pos 0) (magnitude a / 1000));
}
