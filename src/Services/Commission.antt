-- ===== src/Services/Commission.antt =====
-- Commissioning over Bluetooth: a write to the characteristic 0xFF01 (components/iot_ble/src/iot_ble.c)
-- on its way through components/iot_services/src/iot_services.c.
use esp32_iot_products.CText.{codes, Text}
use esp32_iot_products.Ble.{command_of_write}
use esp32_iot_products.Security.{validate_command}
use esp32_iot_products.Provision.{provision_apply_json, provision_is_complete}
use esp32_iot_products.Services.{
  handle_command, with_plat, apply_other, apply_command, after_check, is_config,
}
use esp32_iot_products.UseCase.Platform.{provision_dev}
use esp32_iot_products.UseCase.Json.{has_key}
use esp32_iot_products.UseCase.Run.{World}
use esp32_iot_products.UseCase.Types.{Out}
use esp32_iot_products.Services.Payload.{NoNul, text_of-NoNul, take-length, drop-replicate}
use esp32_iot_products.Core.Err.{ok}
use esp32_iot_products.Core.Float.{Float}
use esp32_iot_products.Core.Types.{json_small_len, zero_command, overwrite, text_of, CommandMsg}
use esp32_iot_products.Prelude.{
  ltb, ◌==◌, ◌∷◌, replicate, false, arith, suc, length, ◌<◌, List, some, ◌++◌, ◌≡◌, ◌-◌, ℕ, refl,
  ap, ◌≤◌, ◌∙◌, true,
}
use esp32_iot_products.Provision.Commission.{provision_apply_json-entry}
use esp32_iot_products.UseCase.Json.Strings.{NoQuote, entry}

-- What a write shorter than the payload becomes.
command_of_write-short :
    (uuid : ℕ) (t : List ℕ)
    → length t < json_small_len
    → command_of_write uuid t ≡ record {
      seq = 0;
      opcode = uuid;
      payload_len = length t;
      payload = t ++ 0 ∷ replicate (json_small_len - suc (length t)) 0;
    }
unfolding command_of_write overwrite zero_command
command_of_write-short uuid t short =
    let fits : ltb json_small_len (length t) ≡ false = ground arith in
    rw (fits, take-length t, drop-replicate (length t) json_small_len short)

validate_command-config :
    (t : List ℕ)
    → 0 < length t
    → length t < json_small_len
    → validate_command (some (command_of_write 0xff01 t)) ≡ ok
unfolding validate_command
validate_command-config t some_byte short =
    let fits : ltb json_small_len (length t) ≡ false = ground arith in
    let nonempty : (length t == 0) ≡ false = ground arith in
    rw (command_of_write-short 0xff01 t short) (ground (arith, fits, nonempty))

text_of-command_of_write :
    (uuid : ℕ) (t : List ℕ)
    → NoNul t
    → length t < json_small_len
    → text_of (command_of_write uuid t).payload ≡ some t
text_of-command_of_write uuid t h short =
    rw (command_of_write-short uuid t short)
      (text_of-NoNul t (replicate (json_small_len - suc (length t)) 0) h)

module _ {F : Type 0} ⦃fl : Float F⦄ where
  handle_command-other :
      (cmd : CommandMsg) (json : Text) (uco : Out F) (σ : World F)
      → validate_command (some cmd) ≡ ok
      → text_of cmd.payload ≡ some json
      → has_key (some json) (codes "uc") ≡ false
      → handle_command (some cmd) uco σ ≡ some (apply_other cmd json σ)
  unfolding handle_command after_check apply_command
  handle_command-other cmd json uco σ checked text key = ground (arith, checked, text, key)

  apply_other-config :
      (t : List ℕ) (σ : World F)
      → length t < json_small_len
      → let p = σ.plat in
        let (e, d) = provision_apply_json (some t) (length t) (provision_dev p) in
        apply_other (command_of_write 0xff01 t) t σ
        ≡ (e, with_plat (record p { config = d.config; tasks = d.tasks }) σ)
  unfolding apply_other is_config command_of_write zero_command
  apply_other-config t σ short =
      let fits : ltb json_small_len (length t) ≡ false = ground arith in rw fits refl

  -- A payload that starts with the name of a network, of 1 to 32 bytes without a quote, that names no
  -- use case, has no NUL and is shorter than a command, and that a client writes to the configuration
  -- characteristic, commissions the device, when the configuration has been set up: the message is
  -- accepted, the name is stored, and commissioning is complete.
  pub handle_command-commissions :
      (ssid rest : Text) (uco : Out F) (σ : World F)
      → let json = entry (codes "ssid") ssid rest in
        NoNul json
        → length json < json_small_len
        → has_key (some json) (codes "uc") ≡ false
        → NoQuote ssid
        → 0 < length ssid
        → length ssid < 33
        → σ.plat.config.ready ≡ true
        → (σ' : World F) × (handle_command (some (command_of_write 0xff01 json)) uco σ
            ≡ some (ok, σ'))
          × (σ'.plat.config.cfg.wifi_ssid ≡ ssid)
          × (provision_is_complete σ'.plat.config ≡ true)
  unfolding with_plat provision_dev
  handle_command-commissions ssid rest uco σ h short no_uc q some_byte fits ready =
      let json = entry (codes "ssid") ssid rest in
      let cmd = command_of_write 0xff01 json in
      let more : 0 < length json = ground arith in
      let less : length json ≤ 512 = ground arith in
      let (e, up, named, complete, told) =
        provision_apply_json-entry ssid rest (length json) (provision_dev σ.plat) more less q
          some_byte fits ready in
      let out = provision_apply_json (some json) (length json) (provision_dev σ.plat) in
      let p = σ.plat in
      let σ' = with_plat (record p { config = out.1.config; tasks = out.1.tasks }) σ in
      (
        σ',
        handle_command-other cmd json uco σ (validate_command-config json more short)
              (text_of-command_of_write 0xff01 json h short) no_uc
            ∙ ap some (apply_other-config json σ short)
            ∙ ap (λ c. some (c, σ')) e,
        named,
        complete,
      )
