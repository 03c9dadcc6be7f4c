-- ===== src/Drivers/Spi.antt =====
-- components/iot_drivers/src/iot_spi.c. The mutex makes each call one step.
use esp32_iot_products.Core.Err.{
  Err, ok, invalid_arg, not_init, already_init, EspCodes, err_from_idf, idf_calls, tolerate,
}
use esp32_iot_products.Prelude.Int.{ℤ}
use esp32_iot_products.Drivers.I2c.{Reply}
use esp32_iot_products.Prelude.{
  List, ◌||◌, true, not, ◌==◌, Option, some, false, Bool, length, none, ℕ, if◌then◌else◌, ◌∷◌,
}

-- `s_init`
pub record Spi : Type 0 where
  pub init : Bool

pub spi_deinit : Spi → Err × Spi
spi_deinit s = if s.init then (ok, record s { init = false }) else (not_init, s)

module _ (k : EspCodes) where
  -- `created` is what making the mutex returns; `initialized` and `calls` what ESP-IDF does: 0 and
  -- no calls on the host. `cfg` tells whether the pointer is not NULL.
  pub spi_init : Err → ℤ → List ℤ → Bool → Spi → Err × Spi
  spi_init created initialized calls cfg s =
      if not cfg || s.init
      then (if s.init then already_init else invalid_arg, s)
      else elim created [
        | ok ↦ elim (idf_calls k (tolerate k initialized ∷ calls)) [
          | ok ↦ (ok, record s { init = true })
          | e ↦ (e, s)
        ]
        | e ↦ (e, s)
      ]

  -- What `rx`, which may be NULL, holds afterwards: the bytes sent, on the host.
  exchanged : Option Reply → List ℕ → Option (List ℕ) → Err × Option (List ℕ)
  exchanged none tx none = (ok, none)
  exchanged none tx (some old) = (ok, some tx)
  exchanged (some r) tx none = (err_from_idf k r.code, none)
  exchanged (some r) tx (some old) = (err_from_idf k r.code, some r.bytes)

  -- `tx` may be NULL; `len` is its length, and that of `rx`.
  pub spi_transfer : Option Reply → Option (List ℕ) → Option (List ℕ) → Spi → Err × Option (List ℕ)
  spi_transfer reply none rx s = (invalid_arg, rx)
  spi_transfer reply (some tx) rx s =
      if not s.init || (length tx == 0) then (invalid_arg, rx) else exchanged reply tx rx
