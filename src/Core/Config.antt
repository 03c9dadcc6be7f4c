-- ===== src/Core/Config.antt =====
-- components/iot_core/src/iot_config.c, built for the host: no NVS. The lock is not modelled.
use esp32_iot_products.CText.{Text, codes}
use esp32_iot_products.Core.Err.{Err, ok, not_init, already_init}
use esp32_iot_products.Prelude.Int.{ℤ, pos}
use esp32_iot_products.Prelude.{false, not, [], true, if◌then◌else◌, Bool, ℕ}

-- `iot_runtime_cfg_t`
pub record RuntimeCfg : Type 0 where
  pub device_id : Text
  pub wifi_ssid : Text
  pub wifi_pass : Text
  pub mqtt_uri : Text
  pub mqtt_user : Text
  pub mqtt_pass : Text
  pub sample_period_ms : ℕ
  pub cloud : ℤ
  pub provisioned : Bool

-- `s_cfg` and `s_ready`
pub record Config : Type 0 where
  pub cfg : RuntimeCfg
  pub ready : Bool

-- What `iot_config_set_defaults` writes.
unfoldable pub defaults : RuntimeCfg
defaults = record {
  device_id = codes "esp32c3-unprovisioned";
  wifi_ssid = [];
  wifi_pass = [];
  mqtt_uri = codes "mqtts://mqtt.local:8883";
  mqtt_user = [];
  mqtt_pass = [];
  sample_period_ms = 1000;
  cloud = pos 0;
  provisioned = false;
}

unfoldable pub config_init : Config → Err × Config
config_init c = if c.ready then (already_init, c) else (ok, record { cfg = defaults; ready = true })

-- `old` is what `*out` held: an error leaves it.
unfoldable pub config_load : RuntimeCfg → Config → Err × RuntimeCfg
config_load old c = if not c.ready then (not_init, old) else (ok, c.cfg)

unfoldable pub config_save : RuntimeCfg → Config → Err × Config
config_save cfg c = if not c.ready then (not_init, c) else (ok, record c { cfg = cfg })
