-- ===== src/Drivers/Pwm.antt =====
-- components/iot_drivers/src/iot_pwm.c.
use esp32_iot_products.Core.Err.{Err, ok, not_init, already_init}
use esp32_iot_products.Prelude.Words.{u32_mod}
use esp32_iot_products.Prelude.{
  true, none, if◌then◌else◌, ◌^◌, ltb, ℕ, Option, Bool, some, ◌%◌, ◌-◌, false,
}

-- `s_init` and `s_duty_max`
pub record Pwm : Type 0 where
  pub init : Bool
  pub duty_max : ℕ

-- The host ignores the pin and the frequency. `1U << bits` is defined for fewer than 32 bits.
unfoldable pub pwm_init : ℕ → Pwm → Err × Pwm
pwm_init resolution_bits s =
    if s.init
    then (already_init, s)
    else let bits = if ltb resolution_bits 8 then 10 else resolution_bits in
      (ok, record s { init = true; duty_max = 2 ^ bits % u32_mod - 1 })

unfoldable pub pwm_deinit : Pwm → Err × Pwm
pwm_deinit s = (ok, record s { init = false })

-- The duty that is handed on to the hardware: at most the largest.
unfoldable pub clamp_duty : ℕ → Pwm → ℕ
clamp_duty duty s = if ltb s.duty_max duty then s.duty_max else duty

-- The value returned, and the duty that the output is set to (none on an error).
unfoldable pub pwm_set_duty : ℕ → Pwm → Err × Option ℕ
pwm_set_duty duty s = if s.init then (ok, some (clamp_duty duty s)) else (not_init, none)
