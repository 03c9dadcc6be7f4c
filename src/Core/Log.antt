-- ===== src/Core/Log.antt =====
-- The level of components/iot_core/src/iot_log.c. What is printed is not modelled.
pub mod Esp
use esp32_iot_products.Prelude.Int.{ℤ, pos, ltb_ℤ, eqb_ℤ}
use esp32_iot_products.Prelude.{not, ◌||◌, Bool}

-- `iot_log_level_t` by its number: NONE, ERROR, WARN, INFO, DEBUG, VERBOSE.
abbrev pub log_verbose : ℤ
log_verbose = pos 5

abbrev pub log_info : ℤ
log_info = pos 3

-- `s_level`
pub record Log : Type 0 where
  pub level : ℤ

pub log_set_level : ℤ → Log → Log
log_set_level level l = record l { level = level }

-- Whether `iot_log_write` prints a message of this level, for a tag and a format that are not NULL.
pub log_prints : ℤ → Log → Bool
log_prints level l = not (ltb_ℤ l.level level || eqb_ℤ level (pos 0))
