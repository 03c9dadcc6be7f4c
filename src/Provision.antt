-- ===== src/Provision.antt =====
-- components/iot_provision/src/iot_provision.c.
pub mod Commission
use esp32_iot_products.CText.{Text, codes, strstr, strchr, advance, skip_while, snprintf}
use esp32_iot_products.Security.{default_device_id}
use esp32_iot_products.UseCase.Json.{quote, colon, copy_string}
use esp32_iot_products.Core.Config.{RuntimeCfg, Config, config_load, config_save}
use esp32_iot_products.Core.Err.{Err, ok, invalid_arg}
use esp32_iot_products.Core.Types.{device_id_len}
use esp32_iot_products.Rtos.Event.{event_set, evt_provisioned}
use esp32_iot_products.Rtos.Tasks.{Tasks}
use esp32_iot_products.Prelude.{
  false, none, not, [], true, length, ◌||◌, ◌==◌, ◌-◌, if◌then◌else◌, ◌++◌, Bool, ltb, ◌∷◌, ℕ,
  Option, some, ◌&&◌,
}

-- What the buffer of `out_len` bytes holds afterwards; it held `old`. The reader is that of the use
-- cases, but for its pattern's size and for the tab.
pub extract_str : Text → Text → Text → ℕ → Text
extract_str json key old out_len =
    let pat = snprintf 32 (quote ∷ (key ++ quote ∷ [])) in
    elim (strstr json pat) [
      | none ↦ old
      | some p ↦ elim (strchr (advance (length pat) p) colon) [
        | none ↦ old
        | some q ↦ elim (skip_while (λ c. c == 32) (advance 1 q)) [
          | [] ↦ old
          | c ∷ r ↦ if c == quote then copy_string (out_len - 1) r else old
        ]
      ]
    ]

abbrev pub is_empty : Text → Bool
is_empty [] = true
is_empty (c ∷ t) = false

unfoldable pub contains : Text → Text → Bool
contains s p = elim (strstr s p) [ none ↦ false | some q ↦ true ]

-- The configuration that the payload makes of `cfg`.
unfoldable pub apply_fields : Text → RuntimeCfg → RuntimeCfg
apply_fields json cfg =
    let ssid = extract_str json (codes "ssid") cfg.wifi_ssid 33 in
    record cfg {
      wifi_ssid = ssid;
      wifi_pass = extract_str json (codes "pass") cfg.wifi_pass 65;
      mqtt_uri = extract_str json (codes "mqtt") cfg.mqtt_uri 128;
      mqtt_user = extract_str json (codes "user") cfg.mqtt_user 64;
      mqtt_pass = extract_str json (codes "mpw") cfg.mqtt_pass 64;
      device_id =
          if is_empty cfg.device_id || contains cfg.device_id (codes "unprovisioned")
          then (default_device_id cfg.device_id device_id_len).1
          else cfg.device_id;
      provisioned = not (is_empty ssid);
    }

-- The state that the function reaches: the configuration, the tasks' events, and what an
-- uninitialised local `iot_runtime_cfg_t` holds.
pub record ProvisionDev : Type 0 where
  pub config : Config
  pub tasks : Tasks
  pub local : RuntimeCfg

unfoldable pub provision_apply_json : Option Text → ℕ → ProvisionDev → Err × ProvisionDev
provision_apply_json none len d = (invalid_arg, d)
provision_apply_json (some json) len d =
    if len == 0 || ltb 512 len
    then (invalid_arg, d)
    else let cfg = apply_fields json (config_load d.local d.config).1 in
      let (e, config') = config_save cfg d.config in
      let t = d.tasks in
      let t' = record t { system_evt = event_set t.system_evt evt_provisioned } in
      elim e [
        | ok ↦ (ok, record d { config = config'; tasks = if cfg.provisioned then t' else t })
        | other ↦ (other, record d { config = config' })
      ]

unfoldable pub provision_is_complete : Config → Bool
provision_is_complete c = c.cfg.provisioned && not (is_empty c.cfg.wifi_ssid)
