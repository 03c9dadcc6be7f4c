-- ===== src/Core/Err.antt =====
-- components/iot_core/include/iot_err.h and src/iot_err.c.
use esp32_iot_products.Prelude.{List, [], ◌∷◌, if◌then◌else◌, ◌≡◌, refl, true, arith}
use esp32_iot_products.Prelude.Int.{ℤ, pos, negsuc, eqb_ℤ}
use esp32_iot_products.CText.{Text, codes, text_eq}

-- The constants of `iot_err_t`.
pub data Err : Type 0 where
  ok fail invalid_arg no_mem timeout busy not_found not_supported invalid_state io crc auth : Err
  denied overflow again hw not_init already_init queue_full queue_empty protocol tls ota : Err
  watchdog isr : Err

-- Their values.
unfoldable pub err_code : Err → ℤ
err_code ok = pos 0
err_code fail = negsuc 0
err_code invalid_arg = negsuc 1
err_code no_mem = negsuc 2
err_code timeout = negsuc 3
err_code busy = negsuc 4
err_code not_found = negsuc 5
err_code not_supported = negsuc 6
err_code invalid_state = negsuc 7
err_code io = negsuc 8
err_code crc = negsuc 9
err_code auth = negsuc 10
err_code denied = negsuc 11
err_code overflow = negsuc 12
err_code again = negsuc 13
err_code hw = negsuc 14
err_code not_init = negsuc 15
err_code already_init = negsuc 16
err_code queue_full = negsuc 17
err_code queue_empty = negsuc 18
err_code protocol = negsuc 19
err_code tls = negsuc 20
err_code ota = negsuc 21
err_code watchdog = negsuc 22
err_code isr = negsuc 23

-- A `switch` on an integer: the first case that fits, or the default.
abbrev pub switch {ℓ} : {A : Type ℓ} → ℤ → List (ℤ × A) → A → A
switch z [] d = d
switch z ((c, a) ∷ cases) d = if eqb_ℤ z c then a else switch z cases d

-- The names of the codes.
name_table : List (ℤ × Text)
name_table =
    (err_code ok, codes "IOT_OK")
    ∷ (err_code fail, codes "IOT_ERR_FAIL")
    ∷ (err_code invalid_arg, codes "IOT_ERR_INVALID_ARG")
    ∷ (err_code no_mem, codes "IOT_ERR_NO_MEM")
    ∷ (err_code timeout, codes "IOT_ERR_TIMEOUT")
    ∷ (err_code busy, codes "IOT_ERR_BUSY")
    ∷ (err_code not_found, codes "IOT_ERR_NOT_FOUND")
    ∷ (err_code not_supported, codes "IOT_ERR_NOT_SUPPORTED")
    ∷ (err_code invalid_state, codes "IOT_ERR_INVALID_STATE")
    ∷ (err_code io, codes "IOT_ERR_IO")
    ∷ (err_code crc, codes "IOT_ERR_CRC")
    ∷ (err_code auth, codes "IOT_ERR_AUTH")
    ∷ (err_code denied, codes "IOT_ERR_DENIED")
    ∷ (err_code overflow, codes "IOT_ERR_OVERFLOW")
    ∷ (err_code again, codes "IOT_ERR_AGAIN")
    ∷ (err_code hw, codes "IOT_ERR_HW")
    ∷ (err_code not_init, codes "IOT_ERR_NOT_INIT")
    ∷ (err_code already_init, codes "IOT_ERR_ALREADY_INIT")
    ∷ (err_code queue_full, codes "IOT_ERR_QUEUE_FULL")
    ∷ (err_code queue_empty, codes "IOT_ERR_QUEUE_EMPTY")
    ∷ (err_code protocol, codes "IOT_ERR_PROTOCOL")
    ∷ (err_code tls, codes "IOT_ERR_TLS")
    ∷ (err_code ota, codes "IOT_ERR_OTA")
    ∷ (err_code watchdog, codes "IOT_ERR_WATCHDOG")
    ∷ (err_code isr, codes "IOT_ERR_ISR")
    ∷ []

pub err_to_name : ℤ → Text
err_to_name err = switch err name_table (codes "IOT_ERR_UNKNOWN")

-- The host build.
pub err_from_esp : ℤ → Err
err_from_esp esp_code = if eqb_ℤ esp_code (pos 0) then ok else fail

-- The constants `ESP_ERR_…` of ESP-IDF that the ESP build looks at.
pub record EspCodes : Type 0 where
  pub no_mem : ℤ
  pub invalid_arg : ℤ
  pub invalid_state : ℤ
  pub not_found : ℤ
  pub not_supported : ℤ
  pub timeout : ℤ
  pub invalid_crc : ℤ

-- The cases of the ESP build.
esp_table : EspCodes → List (ℤ × Err)
esp_table k =
    (k.no_mem, Err.no_mem)
    ∷ (k.invalid_arg, Err.invalid_arg)
    ∷ (k.invalid_state, Err.invalid_state)
    ∷ (k.not_found, Err.not_found)
    ∷ (k.not_supported, Err.not_supported)
    ∷ (k.timeout, Err.timeout)
    ∷ (k.invalid_crc, Err.crc)
    ∷ []

-- The ESP build of `iot_err_from_esp`.
pub err_from_idf : EspCodes → ℤ → Err
err_from_idf k esp_code = if eqb_ℤ esp_code (pos 0) then ok else switch esp_code (esp_table k) fail

pub err_from_idf-zero : (k : EspCodes) → err_from_idf k (pos 0) ≡ ok
unfolding err_from_idf
err_from_idf-zero k = refl

pub err_from_idf-good : (k : EspCodes) (z : ℤ) → eqb_ℤ z (pos 0) ≡ true → err_from_idf k z ≡ ok
unfolding err_from_idf
err_from_idf-good k z h = rw h refl

-- No other code of ESP-IDF counts as a success.
pub err_from_idf-ok : (k : EspCodes) (z : ℤ) → err_from_idf k z ≡ ok → eqb_ℤ z (pos 0) ≡ true
unfolding err_from_idf esp_table
err_from_idf-ok k z h = ground (arith, h)

-- A row of calls of ESP-IDF, given by what they return: the first failure ends the function with
-- its code. A host build makes no such calls.
unfoldable pub idf_calls : EspCodes → List ℤ → Err
idf_calls k [] = ok
idf_calls k (c ∷ cs) =
    let rest = idf_calls k cs in if eqb_ℤ c (pos 0) then rest else err_from_idf k c

-- `ESP_ERR_INVALID_STATE` counts as a success.
unfoldable pub tolerate : EspCodes → ℤ → ℤ
tolerate k c = if eqb_ℤ c k.invalid_state then pos 0 else c

-- The first code of the list that has this name.
err_of : Text → List Err → Err
err_of name [] = fail
err_of name (e ∷ es) = if text_eq (err_to_name (err_code e)) name then e else err_of name es

all_codes : List Err
all_codes =
    ok ∷ fail ∷ invalid_arg ∷ no_mem ∷ timeout ∷ busy ∷ not_found ∷ not_supported ∷ invalid_state
    ∷ io ∷ crc ∷ auth ∷ denied ∷ overflow ∷ again ∷ hw ∷ not_init ∷ already_init ∷ queue_full
    ∷ queue_empty ∷ protocol ∷ tls ∷ ota ∷ watchdog ∷ isr ∷ []

-- Each code has a name of its own.
err_of-err_to_name : (e : Err) → err_of (err_to_name (err_code e)) all_codes ≡ e
unfolding err_of all_codes err_to_name name_table err_code codes text_eq
err_of-err_to_name ok = refl
err_of-err_to_name _ = refl
