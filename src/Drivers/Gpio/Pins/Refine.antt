-- ===== src/Drivers/Gpio/Pins/Refine.antt =====
-- The one word of levels in components/iot_drivers/src/iot_gpio.c keeps the pins apart.
use Prim.Native.Nat.{bit_and, bit_or}
use native.Mathlib.Nat.{mod-eq_of_lt, pow-le-pow_right, one-le-pow}
use esp32_iot_products.Prelude.{
  ℕ, ◌%◌, false, Bool, sym, true, arith, ◌∙◌, not, inl, ◌≡◌, ◌⊎◌, ◌≤◌, ◌==◌, ◌-◌, ◌^◌, inr,
  if◌then◌else◌, refl, ◌<◌, ap, suc, zero, ◌*◌,
}
use esp32_iot_products.Prelude.Bits.{
  digit, digit-bit_or, digit-bit_and, digit-le, digit-mod, digit-pow, digit-pow_other, digit-small,
  digit-complement, bit_and-pow,
}
use esp32_iot_products.Prelude.Int.{ℤ, pos_part}
use esp32_iot_products.Prelude.Words.{u32_mod}
use esp32_iot_products.Drivers.Gpio.{bit_of}

pow-lt : (p : ℕ) → p < 32 → 2 ^ p < 2 ^ 64
pow-lt p h = omega (arith, pow-le-pow_right {n = 2} (omega arith) {i = p} {j = 32} (omega arith))

pub bit_of_lem : (pin : ℤ) → pos_part pin < 32 → bit_of pin ≡ 2 ^ pos_part pin
bit_of_lem pin h = mod-eq_of_lt (pow-lt (pos_part pin) h)

abbrev pub put : Bool → ℕ → ℕ → ℕ
put level p x =
    if level then bit_or x (2 ^ p) % u32_mod else bit_and x (2 ^ 64 - 1 - 2 ^ p) % u32_mod

digit-put_same :
    (level : Bool) (p x : ℕ) → p < 32 → digit p (put level p x) ≡ (if level then 1 else 0)
digit-put_same true p x h = omega (
  arith,
  digit-mod p 32 (bit_or x (2 ^ p)) h,
  digit-bit_or p x (2 ^ p),
  digit-pow p,
  digit-le p x,
)
digit-put_same false p x h = omega (
  arith,
  digit-mod p 32 (bit_and x (2 ^ 64 - 1 - 2 ^ p)) h,
  digit-bit_and p x (2 ^ 64 - 1 - 2 ^ p),
  digit-complement p 64 (2 ^ p) (omega arith) (pow-lt p h),
  digit-pow p,
)

digit-put_other :
    (level : Bool) (p q x : ℕ) → p < 32 → q < 32 → ¬ q ≡ p → digit q (put level p x) ≡ digit q x
digit-put_other true p q x h k d =
    omega
      (arith, digit-mod q 32 (bit_or x (2 ^ p)) k, digit-bit_or q x (2 ^ p), digit-pow_other q p d)
digit-put_other false p q x h k d = omega (
  arith,
  digit-mod q 32 (bit_and x (2 ^ 64 - 1 - 2 ^ p)) k,
  digit-bit_and q x (2 ^ 64 - 1 - 2 ^ p),
  digit-complement q 64 (2 ^ p) (omega arith) (pow-lt p h),
  digit-pow_other q p d,
  digit-le q x,
)

pub put-lt : (level : Bool) (p x : ℕ) → put level p x < u32_mod
put-lt true p x = omega arith
put-lt false p x = omega arith

same_or_not : (p q : ℕ) → ((q == p) ≡ true × q ≡ p) ⊎ ((q == p) ≡ false × ¬ q ≡ p)
same_or_not p q = ground arith

-- Each pin of the word after a write.
pub level-put :
    (level : Bool) (p x : ℕ)
    → p < 32
    → x < u32_mod
    → (q : ℕ)
    → not (digit q (put level p x) == 0) ≡ (if q == p then level else not (digit q x == 0))
level-put level p x h fits q = elim (same_or_not p q) [
  | inl (t, e) ↦ rw t (rw e (rw (digit-put_same level p x h) (level-bit level)))
  | inr (t, d) ↦ rw t (
      ap (λ (n : ℕ). not (n == 0))
        (elim (lt_or_le q 32) [
          | inl k ↦ digit-put_other level p q x h k d
          | inr k ↦ digit-small q 32 _ k (put-lt level p x) ∙ sym (digit-small q 32 x k fits)
        ]))
]
  where
    level-bit : (b : Bool) → not ((if b then 1 else 0) == 0) ≡ b
    level-bit true = refl
    level-bit false = refl

    lt_or_le : (m n : ℕ) → (m < n) ⊎ (n ≤ m)
    lt_or_le m n = ground arith

-- What the mask of a read tells.
pub level-bit_and : (p x : ℕ) → not (bit_and x (2 ^ p) == 0) ≡ not (digit p x == 0)
level-bit_and p x =
    ap (λ (n : ℕ). not (n == 0)) (bit_and-pow p x)
    ∙ ap not (scaled (digit p x) (2 ^ p) (digit-le p x) (one-le-pow p 2 (omega arith)))
  where
    scaled : (d t : ℕ) → d ≤ 1 → 1 ≤ t → (d * t == 0) ≡ (d == 0)
    scaled zero t h k = ground arith
    scaled (suc zero) t h k = ground arith
    scaled (suc (suc d)) t h k = absurd (omega arith)
