-- ===== src/Drivers/Timer/Gptimer.antt =====
-- components/iot_drivers/src/iot_timer.c, built for the ESP: the timer of ESP-IDF that it makes and
-- deletes.
use esp32_iot_products.Core.Err.{Err, ok, invalid_arg, not_init, EspCodes, err_from_idf, idf_calls}
use esp32_iot_products.Prelude.Int.{ℤ, pos, eqb_ℤ}
use esp32_iot_products.Rtos.Objects.{M, pure, ◌>>=◌, close_if, request, ◌>>◌}
use esp32_iot_products.Prelude.{
  if◌then◌else◌, List, not, Option, ◌||◌, none, true, some, false, ℕ, ◌==◌, Bool,
}

-- `s_tmr` and `s_init`
pub record Gptimer : Type 0 where
  pub tmr : Option ℕ
  pub init : Bool

-- What the calls after `gptimer_new_timer` leave: the timer stays in `s_tmr` when one fails.
unfoldable pub armed : Err → Option ℕ → Gptimer → Err × Gptimer
armed ok tmr s = (ok, record { tmr = tmr; init = true })
armed e tmr s = (e, record { tmr = tmr; init = s.init })

module _ (k : EspCodes) where
  -- `created` is what `gptimer_new_timer` returns, `calls` what the calls after it return; `cb` tells
  -- that the callback is not NULL.
  pub gptimer_init : ℤ → List ℤ → ℕ → Bool → Gptimer → M (Err × Gptimer)
  gptimer_init created calls period_us cb s =
      if not cb || period_us == 0
      then pure (invalid_arg, s)
      else (if eqb_ℤ created (pos 0)
          then (do tmr ← request (λ n. true); pure (armed (idf_calls k calls) tmr s))
          else pure (err_from_idf k created, s))

  -- `code` is what `gptimer_start` returns, or `gptimer_stop`.
  pub gptimer_command : ℤ → Gptimer → Err
  gptimer_command code s = elim s.tmr [ none ↦ not_init | some h ↦ err_from_idf k code ]

-- `disabled` is what `gptimer_disable` returns, and `del_code` what `gptimer_del_timer` returns then;
-- both codes are discarded, and the timer is gone where the second is ESP_OK.
pub gptimer_deinit : ℤ → (ℤ → ℤ) → Gptimer → M (Err × Gptimer)
gptimer_deinit disabled del_code s =
    close_if (if eqb_ℤ (del_code disabled) (pos 0) then s.tmr else none)
    >> pure (ok, record { tmr = none; init = false })
