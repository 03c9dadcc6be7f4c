-- ===== src/Drivers/Wdt.antt =====
-- components/iot_drivers/src/iot_wdt.c.
use esp32_iot_products.Core.Err.{Err, ok, not_init, EspCodes, idf_calls, tolerate}
use esp32_iot_products.Prelude.Int.{ℤ}
use esp32_iot_products.Prelude.{true, [], false, Bool, if◌then◌else◌, ◌∷◌}

-- `s_init`
pub record Wdt : Type 0 where
  pub init : Bool

pub wdt_deinit : Wdt → Err × Wdt
wdt_deinit s = (ok, record s { init = false })

-- The host build.
pub wdt_reset : Wdt → Err
wdt_reset s = if s.init then ok else not_init

module _ (k : EspCodes) where
  -- `code` is what ESP-IDF returns: 0 on the host, which calls nothing.
  pub wdt_init : ℤ → Wdt → Err × Wdt
  wdt_init code s = elim (idf_calls k (tolerate k code ∷ [])) [
    | ok ↦ (ok, record s { init = true })
    | e ↦ (e, s)
  ]

  pub wdt_add_current : ℤ → Err
  wdt_add_current code = idf_calls k (tolerate k code ∷ [])
