-- ===== src/Profiles/Moisture.antt =====
-- The soil moisture of components/iot_profiles/src/iot_profile_rest.c from a reading of the converter.
use esp32_iot_products.Profiles.{moisture}
use esp32_iot_products.Prelude.Int.{pos, ◌*ℤ◌}
use esp32_iot_products.Prelude.Words.{quot}
use esp32_iot_products.Drivers.Adc.{millivolts}
use esp32_iot_products.Prelude.{ℕ, ◌≡◌, ◌≤◌, ◌*◌, ◌/◌, ◌-◌, arith}

-- A reading of twelve bits is at most 3300 mV, and gives a moisture of 0 to 100 per cent.
pub moisture-Percent :
    (raw : ℕ)
    → raw ≤ 4095
    → (mv : ℕ) × (m : ℕ) × (millivolts (pos raw) ≡ pos mv)
      × (mv ≤ 3300)
      × (moisture (pos mv) ≡ pos m)
      × (m ≤ 100)
unfolding millivolts moisture quot ◌*ℤ◌
moisture-Percent raw h = (
  raw * 3300 / 4095,
  (3300 - raw * 3300 / 4095) * 100 / 3300,
  ground arith,
  ground arith,
  ground arith,
  ground arith,
)
