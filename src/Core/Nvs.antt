-- ===== src/Core/Nvs.antt =====
-- components/iot_core/src/iot_config.c, built for the ESP: the configuration is stored in the NVS of
-- ESP-IDF, which is a parameter.
pub mod RoundTrip
use esp32_iot_products.CText.{Text, codes, text_eq}
use esp32_iot_products.Core.Config.{RuntimeCfg, Config, defaults}
use esp32_iot_products.Core.Err.{Err, ok, not_init, EspCodes, err_from_idf, invalid_arg}
use esp32_iot_products.Core.Types.{device_id_len}
use esp32_iot_products.Prelude.Int.{ℤ, pos, eqb_ℤ}
use esp32_iot_products.Prelude.Words.{u32_of_int}
use esp32_iot_products.Prelude.{
  some, none, if◌then◌else◌, ◌==◌, ◌<◌, ℕ, Option, not, length, ◌%◌, ◌≡◌, Bool, [], ◌∷◌, ◌&&◌, List,
  true,
}

-- What stands behind a key.
pub data Entry : Type 0 where
  str_entry : Text → Entry
  u32_entry u8_entry : ℕ → Entry

-- One namespace of a partition. A read gives `none` where it returns an error, and then leaves its
-- target alone; `get_str` is told the size of its buffer. A write and a commit tell whether they
-- return ESP_OK, and may fail. A restart keeps what has been committed.
pub record Nvs (S : Type 0) : Type 0 where
  pub find : Text → S → Option Entry
  pub set : Text → Entry → S → Bool × S
  pub commit : S → Bool × S
  pub restart : S → S
  pub get_str : Text → ℕ → S → Option Text
  pub get_u32 : Text → S → Option ℕ
  pub get_u8 : Text → S → Option ℕ
  pub find-set :
      (key other : Text) (e : Entry) (s : S)
      → (set key e s).0 ≡ true
      → find other (set key e s).1 ≡ (if text_eq key other then some e else find other s)
  pub find-restart :
      (key : Text) (s : S) → (commit s).0 ≡ true → find key (restart (commit s).1) ≡ find key s
  pub get_str-found :
      (key t : Text) (size : ℕ) (s : S)
      → find key s ≡ some (str_entry t)
      → length t < size
      → get_str key size s ≡ some t
  pub get_u32-found :
      (key : Text) (n : ℕ) (s : S) → find key s ≡ some (u32_entry n) → get_u32 key s ≡ some n
  pub get_u8-found :
      (key : Text) (n : ℕ) (s : S) → find key s ≡ some (u8_entry n) → get_u8 key s ≡ some n

-- `IOT_CFG_KEY_…`
abbrev pub key_device_id : Text
key_device_id = codes "device_id"

abbrev pub key_wifi_ssid : Text
key_wifi_ssid = codes "wifi_ssid"

abbrev pub key_wifi_pass : Text
key_wifi_pass = codes "wifi_pass"

abbrev pub key_mqtt_uri : Text
key_mqtt_uri = codes "mqtt_uri"

abbrev pub key_mqtt_user : Text
key_mqtt_user = codes "mqtt_user"

abbrev pub key_mqtt_pass : Text
key_mqtt_pass = codes "mqtt_pass"

abbrev pub key_sample_ms : Text
key_sample_ms = codes "sample_ms"

abbrev pub key_provisioned : Text
key_provisioned = codes "provisioned"

abbrev pub key_cloud : Text
key_cloud = codes "cloud_id"

-- A target that keeps what it held where the read fails.
unfoldable pub read_or {ℓ} : {A : Type ℓ} → Option A → A → A
read_or none old = old
read_or (some x) old = x

-- What is written, in the order of the calls.
unfoldable pub entries : RuntimeCfg → List (Text × Entry)
entries cfg =
    (key_device_id, str_entry cfg.device_id)
    ∷ (key_wifi_ssid, str_entry cfg.wifi_ssid)
    ∷ (key_wifi_pass, str_entry cfg.wifi_pass)
    ∷ (key_mqtt_uri, str_entry cfg.mqtt_uri)
    ∷ (key_mqtt_user, str_entry cfg.mqtt_user)
    ∷ (key_mqtt_pass, str_entry cfg.mqtt_pass)
    ∷ (key_sample_ms, u32_entry cfg.sample_period_ms)
    ∷ (key_provisioned, u8_entry (if cfg.provisioned then 1 else 0))
    ∷ (key_cloud, u8_entry (u32_of_int cfg.cloud % 256))
    ∷ []

module _ {S : Type 0} (nvs : Nvs S) where
  -- `tmp`, once all keys have been read.
  stored_cfg : S → RuntimeCfg
  stored_cfg s = record {
    device_id = read_or (nvs.get_str key_device_id device_id_len s) defaults.device_id;
    wifi_ssid = read_or (nvs.get_str key_wifi_ssid 33 s) defaults.wifi_ssid;
    wifi_pass = read_or (nvs.get_str key_wifi_pass 65 s) defaults.wifi_pass;
    mqtt_uri = read_or (nvs.get_str key_mqtt_uri 128 s) defaults.mqtt_uri;
    mqtt_user = read_or (nvs.get_str key_mqtt_user 64 s) defaults.mqtt_user;
    mqtt_pass = read_or (nvs.get_str key_mqtt_pass 64 s) defaults.mqtt_pass;
    sample_period_ms = read_or (nvs.get_u32 key_sample_ms s) defaults.sample_period_ms;
    provisioned = not (read_or (nvs.get_u8 key_provisioned s) 0 == 0);
    cloud = pos (read_or (nvs.get_u8 key_cloud s) 0);
  }

  -- Several writes, and whether all of them return ESP_OK.
  unfoldable pub set_all : List (Text × Entry) → S → Bool × S
  set_all [] s = (true, s)
  set_all ((key, e) ∷ es) s =
      let (went, s') = nvs.set key e s in
      let (all_went, s'') = set_all es s' in (went && all_went, s'')

  -- The nine calls of `nvs_set_…` and `nvs_commit`: whether all return ESP_OK, and what they leave.
  unfoldable pub store_cfg : RuntimeCfg → S → Bool × S
  store_cfg cfg s =
      let (all_set, s') = set_all (entries cfg) s in
      let (committed, s'') = nvs.commit s' in (all_set && committed, s'')

  -- `opened` is what `nvs_open` returns, `out` tells that the pointer is not NULL. The first part is
  -- the code, the second what `*out` holds, which held `old`.
  pub config_load_nvs : ℤ → Bool → S → RuntimeCfg → Config → Err × RuntimeCfg × Config
  config_load_nvs opened out s old c =
      if not out
      then (invalid_arg, old, c)
      else (if not c.ready
          then (not_init, old, c)
          else (if eqb_ℤ opened (pos 0)
              then (ok, stored_cfg s, record c { cfg = stored_cfg s })
              else (ok, c.cfg, c)))

  -- A NULL pointer is `none`. The codes of the writes and of the commit are discarded.
  pub config_save_nvs : EspCodes → ℤ → Option RuntimeCfg → Config → S → Err × Config × S
  config_save_nvs k opened none c s = (invalid_arg, c, s)
  config_save_nvs k opened (some cfg) c s =
      if not c.ready
      then (not_init, c, s)
      else (if eqb_ℤ opened (pos 0)
          then (ok, record c { cfg = cfg }, (store_cfg cfg s).1)
          else (err_from_idf k opened, c, s))
