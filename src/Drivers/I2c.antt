-- ===== src/Drivers/I2c.antt =====
-- components/iot_drivers/src/iot_i2c.c. The mutex makes each call one step.
use esp32_iot_products.Core.Err.{
  Err, ok, invalid_arg, not_init, already_init, EspCodes, err_from_idf, idf_calls,
}
use esp32_iot_products.Prelude.Int.{ℤ}
use esp32_iot_products.Prelude.{
  List, ◌||◌, true, not, Option, some, replicate, false, Bool, length, none, ℕ, if◌then◌else◌,
}

-- `s_init`
pub record I2c : Type 0 where
  pub init : Bool

-- What ESP-IDF returns, with the bytes that it reads.
pub record Reply : Type 0 where
  pub code : ℤ
  pub bytes : List ℕ

pub i2c_deinit : I2c → Err × I2c
i2c_deinit s = if s.init then (ok, record s { init = false }) else (not_init, s)

module _ (k : EspCodes) where
  -- `created` is what making the mutex returns, `calls` what ESP-IDF does: no calls on the host.
  -- `cfg` tells whether the pointer is not NULL.
  pub i2c_init : Err → List ℤ → Bool → I2c → Err × I2c
  i2c_init created calls cfg s =
      if not cfg || s.init
      then (if s.init then already_init else invalid_arg, s)
      else elim created [
        | ok ↦ elim (idf_calls k calls) [ ok ↦ (ok, record s { init = true }) | e ↦ (e, s) ]
        | e ↦ (e, s)
      ]

  -- `given` tells whether the pointer `data` is not NULL.
  pub i2c_write : List ℤ → Bool → I2c → Err
  i2c_write calls given s = if not s.init || not given then invalid_arg else idf_calls k calls

  -- What a buffer of `len` bytes holds after a read: zeros on the host.
  read_outcome : Option Reply → ℕ → Err × Option (List ℕ)
  read_outcome none len = (ok, some (replicate len 0))
  read_outcome (some r) len = (err_from_idf k r.code, some r.bytes)

  -- `data`, which may be NULL, holds `len` bytes.
  pub i2c_read : Option Reply → Option (List ℕ) → I2c → Err × Option (List ℕ)
  i2c_read reply none s = (invalid_arg, none)
  i2c_read reply (some old) s =
      if not s.init then (invalid_arg, some old) else read_outcome reply (length old)

  pub i2c_write_read : Option Reply → Bool → Option (List ℕ) → I2c → Err × Option (List ℕ)
  i2c_write_read reply wr none s = (invalid_arg, none)
  i2c_write_read reply wr (some old) s =
      if not s.init || not wr then (invalid_arg, some old) else read_outcome reply (length old)
