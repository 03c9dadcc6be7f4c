-- ===== src/Rtos/Objects/Timer.antt =====
-- The timers of the ESP build of components/iot_rtos/src/iot_rtos.c.
pub mod Whole
use esp32_iot_products.Core.Err.{Err, ok, invalid_arg, no_mem}
use esp32_iot_products.Rtos.Objects.{M, pure, ◌>>◌, close, request, ◌>>=◌}
use esp32_iot_products.Prelude.{◌||◌, none, Bool, not, ℕ, Option, some, if◌then◌else◌, ◌==◌}

-- `iot_timer_wrap_t`, by the address of its block: the timer of FreeRTOS and the callback.
pub record TimerWrap : Type 0 where
  pub self : ℕ
  pub h : ℕ
  pub cb : ℕ

-- What follows the call of `xTimerCreate`.
unfoldable pub keep_timer : ℕ → ℕ → Option ℕ → M (Err × Option TimerWrap)
keep_timer cb w none = close w >> pure (no_mem, none)
keep_timer cb w (some t) = pure (ok, some (record { self = w; h = t; cb = cb }))

module _ (grants : ℕ → Bool) where
  unfoldable pub timer_block : ℕ → Option ℕ → M (Err × Option TimerWrap)
  timer_block cb none = pure (no_mem, none)
  timer_block cb (some w) = do h ← request grants; keep_timer cb w h

  -- `iot_timer_create`; a callback is a number, or NULL.
  unfoldable pub timer_create : ℕ → Option ℕ → Bool → M (Err × Option TimerWrap)
  timer_create period_ms none out = pure (invalid_arg, none)
  timer_create period_ms (some cb) out =
      if not out || period_ms == 0
      then pure (invalid_arg, none)
      else do w ← request grants; timer_block cb w

-- `iot_timer_delete`
unfoldable pub timer_delete : Option TimerWrap → M (Unit {0})
timer_delete none = pure tt
timer_delete (some w) = close w.h >> close w.self

-- `iot_timer_start`, `iot_timer_stop`; `sent` tells that FreeRTOS takes the command.
pub timer_command : Bool → Option TimerWrap → Err
timer_command sent none = invalid_arg
timer_command sent (some w) = if sent then ok else Err.fail
