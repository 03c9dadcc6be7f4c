-- ===== src/Drivers/Adc.antt =====
-- components/iot_drivers/src/iot_adc.c; the readings are those of the host, where samples are
-- simulated.
pub mod Oneshot
use esp32_iot_products.Core.Err.{Err, ok, invalid_arg, not_init, already_init, EspCodes, idf_calls}
use esp32_iot_products.Prelude.Int.{ℤ, pos, ◌*ℤ◌}
use esp32_iot_products.Prelude.Words.{quot}
use esp32_iot_products.Prelude.{
  ◌||◌, true, not, Option, some, false, Bool, none, if◌then◌else◌, List,
}

pub record Adc : Type 0 where
  pub init : Bool
  pub sim_raw : ℤ

-- `created` is what making the mutex returns, `calls` what ESP-IDF does: no calls on the host. A
-- calibration that fails is ignored.
pub adc_init : EspCodes → Err → List ℤ → Adc → Err × Adc
adc_init k created calls s = if s.init then (already_init, s) else elim created [
  | ok ↦ elim (idf_calls k calls) [ ok ↦ (ok, record s { init = true }) | e ↦ (e, s) ]
  | e ↦ (e, s)
]

pub adc_deinit : Adc → Err × Adc
adc_deinit s = if s.init then (ok, record s { init = false }) else (not_init, s)

-- `raw` tells whether the pointer is not NULL; `none` is a target that is left alone.
pub adc_read_raw : Bool → Adc → Err × Option ℤ
adc_read_raw raw s = if not s.init || not raw then (invalid_arg, none) else (ok, some s.sim_raw)

-- `(raw * 3300) / 4095` of an int; the product fits where raw is a reading of twelve bits.
unfoldable pub millivolts : ℤ → ℤ
millivolts raw = quot (raw *ℤ pos 3300) 4095

-- `mv` tells whether the pointer is not NULL. The local `raw` starts at 0.
pub adc_read_mv : Bool → Adc → Err × Option ℤ
adc_read_mv mv s =
    let (e, r) = adc_read_raw true s in
    let raw : ℤ = elim r [ none ↦ pos 0 | some z ↦ z ] in
    elim e [
      | ok ↦ if mv then (ok, some (millivolts raw)) else (invalid_arg, none)
      | other ↦ (other, none)
    ]

pub adc_sim_set_raw : ℤ → Adc → Adc
adc_sim_set_raw raw s = record s { sim_raw = raw }
