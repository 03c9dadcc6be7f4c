-- ===== src/Drivers/Timer.antt =====
-- components/iot_drivers/src/iot_timer.c, built for the host: only whether it is set up.
pub mod Gptimer
use esp32_iot_products.Core.Err.{Err, ok, invalid_arg, not_init}
use esp32_iot_products.Prelude.{◌||◌, true, not, ◌==◌, false, Bool, ℕ, if◌then◌else◌}

-- `s_init`
pub record HwTimer : Type 0 where
  pub init : Bool

-- `cb` tells whether the pointer is not NULL.
pub hw_timer_init : ℕ → Bool → HwTimer → Err × HwTimer
hw_timer_init period_us cb s =
    if not cb || (period_us == 0) then (invalid_arg, s) else (ok, record s { init = true })

pub hw_timer_deinit : HwTimer → Err × HwTimer
hw_timer_deinit s = (ok, record s { init = false })

pub hw_timer_start : HwTimer → Err
hw_timer_start s = if s.init then ok else not_init

pub hw_timer_stop : HwTimer → Err
hw_timer_stop s = ok
