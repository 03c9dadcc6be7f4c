-- ===== src/Drivers/Gpio.antt =====
-- components/iot_drivers/src/iot_gpio.c, and the pins of components/iot_hal/include/iot_board.h.
pub mod Pins
use Prim.Native.Nat.{bit_and, bit_or}
use esp32_iot_products.Core.Err.{Err, ok, invalid_arg, not_init, already_init}
use esp32_iot_products.Prelude.Int.{ℤ, pos, ltb_ℤ, pos_part}
use esp32_iot_products.Prelude.Words.{u32_mod}
use esp32_iot_products.Prelude.{
  true, none, if◌then◌else◌, ◌^◌, ℕ, Option, Bool, some, ◌==◌, not, ◌%◌, ◌-◌, false, ◌||◌,
}

-- `s_init` and `s_out_shadow`
pub record Gpio : Type 0 where
  pub init : Bool
  pub out_shadow : ℕ

abbrev pub pin_led : ℤ
pin_led = pos 8

abbrev pub pin_pwm_out : ℤ
pin_pwm_out = pos 18

-- `1UL << pin`, of 64 bits
abbrev pub bit_of : ℤ → ℕ
bit_of pin = 2 ^ pos_part pin % 2 ^ 64

-- The value returned, and whether creating the mutex succeeds, are the first argument's affair.
pub gpio_init : Err → Gpio → Err × Gpio
gpio_init created s =
    if s.init
    then (already_init, s)
    else elim created [ ok ↦ (ok, record s { init = true }) | e ↦ (e, s) ]

pub gpio_deinit : Gpio → Err × Gpio
gpio_deinit s = if s.init then (ok, record s { init = false }) else (not_init, s)

-- The host ignores the mode.
pub gpio_config : ℤ → Gpio → Err × Gpio
gpio_config pin s =
    if not s.init || ltb_ℤ pin (pos 0) || ltb_ℤ (pos 21) pin then (invalid_arg, s) else (ok, s)

pub gpio_write : ℤ → Bool → Gpio → Err × Gpio
gpio_write pin level s = if not s.init || ltb_ℤ pin (pos 0) then (invalid_arg, s) else (
  ok,
  record s {
    out_shadow =
        if level
        then bit_or s.out_shadow (bit_of pin) % u32_mod
        else bit_and s.out_shadow (2 ^ 64 - 1 - bit_of pin) % u32_mod;
  },
)

-- `none` is a `*level` that is left alone.
pub gpio_read : ℤ → Gpio → Err × Option Bool
gpio_read pin s =
    if not s.init || ltb_ℤ pin (pos 0)
    then (invalid_arg, none)
    else (ok, some (not (bit_and s.out_shadow (bit_of pin) == 0)))

pub gpio_toggle : ℤ → Gpio → Err × Gpio
gpio_toggle pin s =
    let (e, level) = gpio_read pin s in
    let cur : Bool = elim level [ none ↦ false | some b ↦ b ] in
    elim e [ ok ↦ gpio_write pin (not cur) s | other ↦ (other, s) ]
