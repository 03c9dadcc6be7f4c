-- ===== src/Prelude/Words.antt =====
-- Fixed-width integers of C: conversions that wrap, and the remainder that truncates towards zero.
use esp32_iot_products.Prelude.{ℕ, suc, ◌+◌, ◌-◌, ◌/◌, ◌%◌, ◌^◌, ◌<◌, arith, Bool}
use esp32_iot_products.Prelude.Int.{ℤ, pos, negsuc, sub_ℕ, ltb_ℤ}

abbrev pub u32_mod : ℕ
u32_mod = 2 ^ 32

-- `uint32_t` addition.
unfoldable pub add32 : ℕ → ℕ → ℕ
add32 a b = (a + b) % u32_mod

-- `(uint32_t)z` of a signed value.
unfoldable pub u32_of_int : ℤ → ℕ
u32_of_int (pos n) = n % u32_mod
u32_of_int (negsuc n) = (u32_mod - suc (n % u32_mod)) % u32_mod

-- `(int32_t)n` of an unsigned value below 2 ^ 32.
unfoldable pub int_of_u32 : ℕ → ℤ
int_of_u32 n = elim (ltb_ℤ (pos n) (pos (2 ^ 31))) [
  | Bool.true ↦ pos n
  | Bool.false ↦ sub_ℕ n u32_mod
]

-- `z % k` of C for a positive `k`: the sign is that of `z`.
unfoldable pub rem : ℤ → ℕ → ℤ
rem (pos n) k = pos (n % k)
rem (negsuc n) k = sub_ℕ 0 (suc n % k)

-- `z / k` of C for a positive `k`: it truncates towards zero.
unfoldable pub quot : ℤ → ℕ → ℤ
quot (pos n) k = pos (n / k)
quot (negsuc n) k = sub_ℕ 0 (suc n / k)

pub add32-lt : (a b : ℕ) → add32 a b < u32_mod
unfolding add32
add32-lt a b = omega arith
