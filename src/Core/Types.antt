-- ===== src/Core/Types.antt =====
-- components/iot_core/include/iot_types.h. A `char` array is the text that it holds, and an enum's
-- value is its number.
use esp32_iot_products.CText.{Text}
use esp32_iot_products.Prelude.Int.{ℤ}
use esp32_iot_products.Prelude.{
  none, replicate, take, [], drop, ◌==◌, if◌then◌else◌, ◌++◌, ◌∷◌, ℕ, Option, some, List,
}

-- `IOT_DEVICE_ID_LEN`, `IOT_TOPIC_LEN`, `IOT_JSON_SMALL_LEN`
abbrev pub device_id_len : ℕ
device_id_len = 32

abbrev pub topic_len : ℕ
topic_len = 96

abbrev pub json_small_len : ℕ
json_small_len = 256

abbrev pub json_telemetry_len : ℕ
json_telemetry_len = 768

-- `iot_identity_t`
pub record Identity : Type 0 where
  pub device_id : Text
  pub fw_version : Text
  pub profile : ℕ
  pub cloud : ℕ
  pub boot_count : ℕ

-- `iot_command_msg_t`: `payload` holds all its bytes, with no NUL of its own at the end.
pub record CommandMsg : Type 0 where
  pub seq : ℕ
  pub opcode : ℕ
  pub payload_len : ℕ
  pub payload : List ℕ

-- `iot_telemetry_msg_t`
pub record TelemetryMsg : Type 0 where
  pub seq : ℕ
  pub unix_ms : ℤ
  pub flags : ℕ
  pub payload_len : ℕ
  pub payload : List ℕ

-- `memset(&cmd, 0, sizeof(cmd))`
unfoldable pub zero_command : CommandMsg
zero_command = record { seq = 0; opcode = 0; payload_len = 0; payload = replicate json_small_len 0 }

-- `memcpy(dst, src, n)`, for an `n` within both.
unfoldable pub overwrite : List ℕ → ℕ → List ℕ → List ℕ
overwrite src n dst = take n src ++ drop n dst

-- The text that a `const char *` to this array is read as: the bytes up to the first NUL, or
-- `none` where the array has none, and the reader runs past its end.
unfoldable pub text_of : List ℕ → Option Text
text_of [] = none
text_of (c ∷ cs) =
    let rest = text_of cs in
    if c == 0 then some [] else elim rest [ none ↦ none | some t ↦ some (c ∷ t) ]
