-- ===== src/Drivers/Adc/Oneshot.antt =====
-- The readings of components/iot_drivers/src/iot_adc.c, built for the ESP.
use mathlib.Core.Path.{ap₂}
use esp32_iot_products.Drivers.Adc.{Adc, millivolts}
use esp32_iot_products.Core.Err.{Err, ok, invalid_arg, EspCodes, err_from_idf, err_from_idf-zero}
use esp32_iot_products.Prelude.Int.{ℤ, pos, eqb_ℤ, ◌*ℤ◌, sub_ℕ}
use esp32_iot_products.Prelude.Words.{quot}
use esp32_iot_products.Prelude.{
  true, ◌≤◌, ◌*◌, some, ◌/◌, not, ◌||◌, ℕ, Option, Bool, arith, ◌+◌, none, ◌<◌, ◌≡◌, if◌then◌else◌,
  ap, ◌∙◌, leb,
}

product_lem : (n : ℕ) → pos n *ℤ pos 3300 ≡ pos (n * 3300)
unfolding ◌*ℤ◌
product_lem n = ap₂ sub_ℕ high low ∙ rw shown (ap pos (omega arith))
  where
    high : n * 3300 + 0 * 0 ≡ n * 3300
    high = omega arith

    low : n * 0 + 0 * 3300 ≡ 0
    low = omega arith

    shown : leb 0 (n * 3300) ≡ true
    shown = ground arith

millivolts_lem : (n : ℕ) → millivolts (pos n) ≡ pos (n * 3300 / 4095)
unfolding millivolts quot
millivolts_lem n = ap (λ (z : ℤ). quot z 4095) (product_lem n)

module _ (k : EspCodes) where
  -- `channel` is what `adc_oneshot_io_to_channel` returns, `code` and `value` what `adc_oneshot_read`
  -- returns and writes; `raw` tells that the pointer is not NULL.
  pub adc_read_raw_esp : ℤ → ℤ × ℤ → Bool → Adc → Err × Option ℤ
  adc_read_raw_esp channel (code, value) raw s =
      if not s.init || not raw
      then (invalid_arg, none)
      else (if eqb_ℤ channel (pos 0)
          then (err_from_idf k code, if eqb_ℤ code (pos 0) then some value else none)
          else (err_from_idf k channel, none))

  -- What follows the reading in `iot_adc_read_mv`; the local `raw` starts at 0.
  report_mv : Option (ℤ → ℤ × ℤ) → Bool → Err × Option ℤ → Err × Option ℤ
  report_mv cali mv (ok, r) =
      let raw : ℤ = elim r [ none ↦ pos 0 | some z ↦ z ] in
      elim cali [
        | none ↦ if mv then (ok, some (millivolts raw)) else (invalid_arg, none)
        | some f ↦
            (err_from_idf k (f raw).0, if eqb_ℤ (f raw).0 (pos 0) then some (f raw).1 else none)
      ]
  report_mv cali mv (e, r) = (e, none)

  -- `cali` is what the calibration makes of a reading: a code, and the millivolts that it writes.
  pub adc_read_mv_esp : ℤ → ℤ × ℤ → Option (ℤ → ℤ × ℤ) → Bool → Adc → Err × Option ℤ
  adc_read_mv_esp channel reading cali mv s =
      report_mv cali mv (adc_read_raw_esp channel reading true s)

  read_lem :
      (z : ℤ) (s : Adc) → s.init ≡ true → adc_read_raw_esp (pos 0) (pos 0, z) true s ≡ (ok, some z)
  unfolding adc_read_raw_esp
  read_lem z s up = rw up (ap (λ (e : Err). (e, some z)) (err_from_idf-zero k))

  -- Without a calibration, a reading of twelve bits is reported as one of at most 3300 mV, which errs
  -- by less than 1 mV from 3300 / 4095 of it.
  pub adc_read_mv_esp-range :
      (n : ℕ) (s : Adc)
      → s.init ≡ true
      → n < 4096
      → (v : ℕ) × (adc_read_mv_esp (pos 0) (pos 0, pos n) none true s ≡ (ok, some (pos v)))
        × (v ≤ 3300)
        × (v * 4095 ≤ n * 3300)
        × (n * 3300 < (v + 1) * 4095)
  unfolding adc_read_mv_esp report_mv
  adc_read_mv_esp-range n s up h = (
    n * 3300 / 4095,
    ap (report_mv none true) (read_lem (pos n) s up) ∙ ap (λ v. (ok, some v)) (millivolts_lem n),
    omega arith,
    omega arith,
    omega arith,
  )
