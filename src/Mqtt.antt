-- ===== src/Mqtt.antt =====
-- components/iot_mqtt/src/iot_mqtt.c: the names of topics, and the messages that arrive.
pub mod Client
use esp32_iot_products.CText.{Text, codes, snprintf}
use esp32_iot_products.Prelude.{none, ◌==◌, if◌then◌else◌, ◌++◌, ℕ, Option, some, ltb, List}
use esp32_iot_products.Core.Types.{json_small_len, CommandMsg, zero_command, overwrite}

-- What `out`, of `out_len` bytes, holds afterwards; it held `old`.
unfoldable pub build_topic : Text → ℕ → Option Text → Option Text → Text
build_topic old out_len device_id suffix =
    if out_len == 0
    then old
    else snprintf out_len (
        codes "device/"
        ++ (elim device_id [ none ↦ codes "unknown" | some d ↦ d ]
            ++ (codes "/" ++ elim suffix [ none ↦ codes "telemetry" | some s ↦ s ])))

-- The case MQTT_EVENT_DATA of the ESP-IDF handler: the command that it puts on the queue, from the
-- `len` bytes at `ev->data`, which may be NULL.
unfoldable pub command_of_data : Option (List ℕ) → ℕ → CommandMsg
command_of_data bytes len =
    let n = if ltb json_small_len len then json_small_len else len in
    let cmd = record zero_command { opcode = 0x4d51; payload_len = n } in
    elim bytes [ none ↦ cmd | some bs ↦ record cmd { payload = overwrite bs n cmd.payload } ]
