-- ===== src/Prelude/Bits.antt =====
-- The binary digits of a word, and what `|`, `&`, `~` and a cut to a width do to each of them.
use Prim.Native.Nat.{min, max, digits, bitwise, bit_and, bit_or, bit_and-bitwise, bit_or-bitwise}
use native.Mathlib.Nat.{le_refl, pow-suc, one-le-pow, mod-add-div, div-div-eq-div-mul}
use esp32_iot_products.Prelude.{
  ℕ, zero, suc, ◌+◌, ◌∙◌, ap, ◌^◌, ◌≡◌, ◌%◌, ◌*◌, ◌≤◌, refl, ◌-◌, arith, ◌<◌, ◌/◌,
}

module _ (tail : ℕ → ℕ) (pair : ℕ → ℕ → ℕ) where
  -- Any two amounts of fuel that reach the first number do alike.
  spare_fuel : (x y i j : ℕ) → x ≤ i → x ≤ j → digits tail pair j x y ≡ digits tail pair i x y
  spare_fuel (suc x) y zero j few many = absurd (omega arith)
  spare_fuel (suc x) y (suc i) zero few many = absurd (omega arith)
  spare_fuel (suc x) y (suc i) (suc j) few many =
      ap (λ (high : ℕ). high * 2 + pair (suc x % 2) (y % 2))
        (spare_fuel (suc x / 2) (y / 2) i j (omega arith) (omega arith))
  spare_fuel zero y zero zero few many = refl
  spare_fuel zero y zero (suc j) few many = refl
  spare_fuel zero y (suc i) zero few many = refl
  spare_fuel zero y (suc i) (suc j) few many = refl

  lowest :
      (x y : ℕ)
      → bitwise tail pair (suc x) y
        ≡ bitwise tail pair (suc x / 2) (y / 2) * 2 + pair (suc x % 2) (y % 2)
  lowest x y =
      ap (λ (high : ℕ). high * 2 + pair (suc x % 2) (y % 2))
        (spare_fuel (suc x / 2) (y / 2) (suc x / 2) x (omega arith) (omega arith))

pub bit_or-halves : (x y : ℕ) → bit_or x y ≡ max (x % 2) (y % 2) + 2 * bit_or (x / 2) (y / 2)
bit_or-halves zero y = omega (arith, bit_or-bitwise 0 y, bit_or-bitwise 0 (y / 2))
bit_or-halves (suc x) y =
    omega
      (arith, bit_or-bitwise (suc x) y, lowest (λ n. n) max x y, bit_or-bitwise (suc x / 2) (y / 2))

pub bit_and-halves : (x y : ℕ) → bit_and x y ≡ min (x % 2) (y % 2) + 2 * bit_and (x / 2) (y / 2)
bit_and-halves zero y = omega (arith, bit_and-bitwise 0 y, bit_and-bitwise 0 (y / 2))
bit_and-halves (suc x) y =
    omega (
      arith,
      bit_and-bitwise (suc x) y,
      lowest (λ n. 0) min x y,
      bit_and-bitwise (suc x / 2) (y / 2),
    )

-- The digit of `a` at a place: 0 or 1.
unfoldable pub digit : ℕ → ℕ → ℕ
digit zero a = a % 2
digit (suc k) a = digit k (a / 2)

pub digit-bit_or : (k a b : ℕ) → digit k (bit_or a b) ≡ max (digit k a) (digit k b)
unfolding digit
digit-bit_or zero a b = omega (arith, bit_or-halves a b)
digit-bit_or (suc k) a b =
    ap (digit k) (omega (arith, bit_or-halves a b)) ∙ digit-bit_or k (a / 2) (b / 2)

pub digit-bit_and : (k a b : ℕ) → digit k (bit_and a b) ≡ min (digit k a) (digit k b)
unfolding digit
digit-bit_and zero a b = omega (arith, bit_and-halves a b)
digit-bit_and (suc k) a b =
    ap (digit k) (omega (arith, bit_and-halves a b)) ∙ digit-bit_and k (a / 2) (b / 2)

pub digit-le : (k a : ℕ) → digit k a ≤ 1
unfolding digit
digit-le zero a = omega arith
digit-le (suc k) a = digit-le k (a / 2)

pub digit-zero : (k : ℕ) → digit k 0 ≡ 0
unfolding digit
digit-zero zero = refl
digit-zero (suc k) = digit-zero k

mod-twice : (a p : ℕ) → a % (2 * p) ≡ a / 2 % p * 2 + a % 2
mod-twice a p = omega (
  arith,
  mod-add-div a (2 * p),
  mod-add-div (a / 2) p,
  ap (λ (q : ℕ). p * q) (div-div-eq-div-mul a 2 p),
)

mod-pow_suc : (w a : ℕ) → a % 2 ^ suc w ≡ a / 2 % 2 ^ w * 2 + a % 2
mod-pow_suc w a = ap (λ (m : ℕ). a % m) (omega (arith, pow-suc 2 w)) ∙ mod-twice a (2 ^ w)

-- A cut to `w` digits keeps those below `w`.
pub digit-mod : (k w a : ℕ) → k < w → digit k (a % 2 ^ w) ≡ digit k a
unfolding digit
digit-mod k zero a h = absurd (omega arith)
digit-mod zero (suc w) a h = omega (arith, mod-pow_suc w a)
digit-mod (suc k) (suc w) a h =
    ap (digit k) (omega (arith, mod-pow_suc w a)) ∙ digit-mod k w (a / 2) (omega arith)

pub digit-pow : (k : ℕ) → digit k (2 ^ k) ≡ 1
unfolding digit
digit-pow zero = refl
digit-pow (suc k) = ap (digit k) (omega (arith, pow-suc 2 k)) ∙ digit-pow k

pub digit-pow_other : (k i : ℕ) → ¬ k ≡ i → digit k (2 ^ i) ≡ 0
unfolding digit
digit-pow_other zero zero h = absurd (h refl)
digit-pow_other zero (suc i) h = omega (arith, pow-suc 2 i)
digit-pow_other (suc k) zero h = digit-zero k
digit-pow_other (suc k) (suc i) h =
    ap (digit k) (omega (arith, pow-suc 2 i)) ∙ digit-pow_other k i (λ e. h (ap suc e))

pub digit-small : (k w a : ℕ) → w ≤ k → a < 2 ^ w → digit k a ≡ 0
unfolding digit
digit-small k zero a h fits = ap (digit k) (omega arith) ∙ digit-zero k
digit-small zero (suc w) a h fits = absurd (omega arith)
digit-small (suc k) (suc w) a h fits =
    digit-small k w (a / 2) (omega arith) (omega (arith, pow-suc 2 w))

-- `~a` of `w` digits turns each over.
pub digit-complement : (k w a : ℕ) → k < w → a < 2 ^ w → digit k (2 ^ w - 1 - a) ≡ 1 - digit k a
unfolding digit
digit-complement k zero a h fits = absurd (omega arith)
digit-complement zero (suc w) a h fits = omega (arith, pow-suc 2 w, one-le-pow w 2)
digit-complement (suc k) (suc w) a h fits =
    ap (digit k) (omega (arith, pow-suc 2 w, one-le-pow w 2))
    ∙ digit-complement k w (a / 2) (omega arith) (omega (arith, pow-suc 2 w))

bit_and-zero : (bound x : ℕ) → x ≤ bound → bit_and x 0 ≡ 0
bit_and-zero zero (suc x) small = absurd (omega arith)
bit_and-zero (suc bound) (suc x) small =
    omega (arith, bit_and-zero bound (suc x / 2) (omega arith), bit_and-halves (suc x) 0)
bit_and-zero bound zero small = refl

-- A mask of one digit.
pub bit_and-pow : (i a : ℕ) → bit_and a (2 ^ i) ≡ digit i a * 2 ^ i
unfolding digit
bit_and-pow zero a = omega (arith, bit_and-halves a 1, bit_and-zero (a / 2) (a / 2) (le_refl _))
bit_and-pow (suc i) a = omega (
  arith,
  bit_and-halves a (2 ^ suc i),
  pow-suc 2 i,
  ap (bit_and (a / 2)) half ∙ bit_and-pow i (a / 2),
  ap (λ (t : ℕ). digit i (a / 2) * t) (pow-suc 2 i),
)
  where
    half : 2 ^ suc i / 2 ≡ 2 ^ i
    half = omega (arith, pow-suc 2 i)
