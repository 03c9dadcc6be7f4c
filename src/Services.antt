-- ===== src/Services.antt =====
-- components/iot_services/src/iot_services.c: the command bus.
-- `memcpy(msg->payload, json, n)` and the NUL behind it, for an `n` below the length.
pub mod Payload
pub mod Bus
pub mod Commission
use esp32_iot_products.CText.{Text, codes, strstr}
use esp32_iot_products.Security.{op_config, byte_at, validate_command}
use esp32_iot_products.Provision.{contains, provision_apply_json}
use esp32_iot_products.Ota.{ota_start}
use esp32_iot_products.Diag.{cmd_reject, diag_event}
use esp32_iot_products.UseCase.Platform.{Plat, provision_dev}
use esp32_iot_products.UseCase.Json.{has_key, copy_string}
use esp32_iot_products.UseCase.Run.{World, dispatch_command}
use esp32_iot_products.UseCase.Types.{Out}
use esp32_iot_products.Core.Err.{Err, ok, invalid_arg, ota}
use esp32_iot_products.Core.Float.{Float}
use esp32_iot_products.Core.Types.{json_telemetry_len, CommandMsg, TelemetryMsg, overwrite, text_of}
use esp32_iot_products.Prelude.{
  ◌^◌, ℕ, Bool, none, take, ◌%◌, if◌then◌else◌, ◌||◌, ◌-◌, some, length, Option, ◌==◌, ◌+◌, List,
  ◌∷◌, ◌++◌, ◌&&◌, leb, [],
}

fill : Text → ℕ → List ℕ → List ℕ
fill json n payload = overwrite (take n json ++ 0 ∷ []) (n + 1) payload

-- `msg` and `json` may be NULL.
pub fill_telemetry : Option TelemetryMsg → Option Text → Err × Option TelemetryMsg
fill_telemetry none json = (invalid_arg, none)
fill_telemetry (some msg) none = (invalid_arg, some msg)
fill_telemetry (some msg) (some json) =
    let n = if leb json_telemetry_len (length json) then json_telemetry_len - 1 else length json in
    (ok, some (record msg { payload = fill json n msg.payload; payload_len = n % 2 ^ 16 }))

-- `0x4D51`, the opcode of a message of MQTT.
abbrev pub op_mqtt : ℕ
op_mqtt = 0x4d51

-- A message for the configuration: of Bluetooth, or of the topic that ends in `s`.
pub is_config : CommandMsg → Bool
is_config cmd = (cmd.opcode == op_config) || ((cmd.opcode == op_mqtt) && (byte_at 2 cmd == 115))

-- The URL that an update message gives, in a buffer of 200 bytes.
pub update_url : Text → Option Text
update_url json =
    if contains json (codes "\"ota_url\"")
    then elim (strstr json (codes "https://")) [ none ↦ none | some p ↦ some (copy_string 199 p) ]
    else none

module _ {F : Type 0} where
  with_plat : Plat → World F → World F
  with_plat plat σ = record σ { plat = plat }

  reject : World F → World F
  reject σ = let p = σ.plat in with_plat (record p { diag = diag_event cmd_reject p.diag }) σ

  -- The last test: an update message that gives a URL.
  apply_update : Option Text → World F → Err × World F
  apply_update none σ = (ok, σ)
  apply_update (some url) σ =
      let p = σ.plat in
      let (e, o) = ota_start (some url) p.ota in (e, with_plat (record p { ota = o }) σ)

  -- The end of the function, for a message that names no use case.
  apply_other : CommandMsg → Text → World F → Err × World F
  apply_other cmd json σ =
      let p = σ.plat in
      let (e, d) = provision_apply_json (some json) cmd.payload_len (provision_dev p) in
      if is_config cmd
      then (e, with_plat (record p { config = d.config; tasks = d.tasks }) σ)
      else apply_update (update_url json) σ

module _ {F : Type 0} ⦃fl : Float F⦄ where
  -- The code that a use case leaves; its reply is only logged.
  outcome : Option (Err × Option (Out F) × World F) → Option (Err × World F)
  outcome none = none
  outcome (some (e, out, σ)) = some (e, σ)

  -- What follows the validation. `uco` is what the uninitialised local of that name holds. `none`
  -- where the payload has no NUL: the readers of its text run past its end.
  apply_command : CommandMsg → Out F → World F → Option (Err × World F)
  apply_command cmd uco σ = elim (text_of cmd.payload) [
    | none ↦ none
    | some json ↦
        if has_key (some json) (codes "uc")
        then outcome (dispatch_command (some cmd) (some uco) σ)
        else some (apply_other cmd json σ)
  ]

  -- What the outcome of the validation leads to.
  after_check : Err → CommandMsg → Out F → World F → Option (Err × World F)
  after_check ok cmd uco σ = apply_command cmd uco σ
  after_check e cmd uco σ = some (e, reject σ)

  pub handle_command : Option CommandMsg → Out F → World F → Option (Err × World F)
  handle_command none uco σ = some (invalid_arg, reject σ)
  handle_command (some cmd) uco σ = after_check (validate_command (some cmd)) cmd uco σ
