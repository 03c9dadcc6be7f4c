-- ===== src/Core/Nvs/RoundTrip.antt =====
-- What the ESP build of components/iot_core/src/iot_config.c finds again after a restart.
use esp32_iot_products.CText.{codes, text_eq, Text}
use esp32_iot_products.Core.Config.{RuntimeCfg, Config, config_init}
use esp32_iot_products.Core.Err.{ok, EspCodes}
use esp32_iot_products.Core.Types.{device_id_len}
use esp32_iot_products.Core.Nvs.{
  Nvs, key_device_id, key_wifi_ssid, key_wifi_pass, key_mqtt_uri, key_mqtt_user, key_mqtt_pass,
  key_sample_ms, key_provisioned, key_cloud, read_or, config_load_nvs, config_save_nvs, stored_cfg,
  store_cfg, Entry, entries, set_all,
}
use esp32_iot_products.Prelude.Int.{pos}
use esp32_iot_products.Prelude.Words.{u32_of_int}
use esp32_iot_products.Prelude.{
  ℕ, true, some, false, Bool-cases, if◌then◌else◌, ◌∙◌, inr, ◌<◌, ◌%◌, Bool, ◌==◌, ap, arith, not,
  inl, length, ◌≡◌, ◌^◌, refl, [], ◌∷◌, List, Option,
}

-- Each string fits its array with a NUL, and the provider is one of 8 bits.
pub record CfgFits (cfg : RuntimeCfg) : Type 0 where
  pub device_id : length cfg.device_id < device_id_len
  pub wifi_ssid : length cfg.wifi_ssid < 33
  pub wifi_pass : length cfg.wifi_pass < 65
  pub mqtt_uri : length cfg.mqtt_uri < 128
  pub mqtt_user : length cfg.mqtt_user < 64
  pub mqtt_pass : length cfg.mqtt_pass < 64
  pub provider : ℕ
  pub cloud : cfg.cloud ≡ pos provider
  pub byte : provider < 256

provider-u32_of_int :
    (cfg : RuntimeCfg) (f : CfgFits cfg) → pos (u32_of_int cfg.cloud % 256) ≡ cfg.cloud
unfolding u32_of_int
provider-u32_of_int cfg f =
    let small = f.byte in
    let same : f.provider % 2 ^ 32 % 256 ≡ f.provider = omega arith in rw (f.cloud, same)

flag_byte : (b : Bool) → not ((if b then 1 else 0) == 0) ≡ b
flag_byte true = refl
flag_byte false = refl

-- The last entry written under a key, or what stood there.
last_entry : Text → List (Text × Entry) → Option Entry → Option Entry
last_entry key [] old = old
last_entry key ((other, e) ∷ es) old = last_entry key es (if text_eq other key then some e else old)

module _ {S : Type 0} (nvs : Nvs S) where
  find-set_all :
      (key : Text) (es : List (Text × Entry)) (s : S)
      → (set_all nvs es s).0 ≡ true
      → nvs.find key (set_all nvs es s).1 ≡ last_entry key es (nvs.find key s)
  unfolding set_all last_entry
  find-set_all key [] s went = refl
  find-set_all key ((other, e) ∷ es) s went =
      let here : (nvs.set other e s).0 ≡ true = ground (arith, went) in
      let later : (set_all nvs es (nvs.set other e s).1).0 ≡ true = ground (arith, went) in
      find-set_all key es (nvs.set other e s).1 later
      ∙ ap (last_entry key es) (nvs.find-set other key e s here)

  find-store_cfg :
      (key : Text) (cfg : RuntimeCfg) (s : S)
      → (store_cfg nvs cfg s).0 ≡ true
      → nvs.find key (nvs.restart (store_cfg nvs cfg s).1)
        ≡ last_entry key (entries cfg) (nvs.find key s)
  unfolding store_cfg
  find-store_cfg key cfg s went =
      let (all_set, s') = set_all nvs (entries cfg) s in
      nvs.find-restart key s' (ground (arith, went))
      ∙ find-set_all key (entries cfg) s (ground (arith, went))

  stored_cfg-store_cfg :
      (cfg : RuntimeCfg) (s : S)
      → (store_cfg nvs cfg s).0 ≡ true
      → CfgFits cfg
      → stored_cfg nvs (nvs.restart (store_cfg nvs cfg s).1) ≡ cfg
  unfolding stored_cfg read_or entries last_entry codes text_eq
  stored_cfg-store_cfg cfg s went f =
      let s' = nvs.restart (store_cfg nvs cfg s).1 in
      rw
        (
          nvs.get_str-found key_device_id cfg.device_id device_id_len s'
              (find-store_cfg key_device_id cfg s went) f.device_id,
          nvs.get_str-found key_wifi_ssid cfg.wifi_ssid 33 s'
              (find-store_cfg key_wifi_ssid cfg s went) f.wifi_ssid,
          nvs.get_str-found key_wifi_pass cfg.wifi_pass 65 s'
              (find-store_cfg key_wifi_pass cfg s went) f.wifi_pass,
          nvs.get_str-found key_mqtt_uri cfg.mqtt_uri 128 s'
              (find-store_cfg key_mqtt_uri cfg s went) f.mqtt_uri,
          nvs.get_str-found key_mqtt_user cfg.mqtt_user 64 s'
              (find-store_cfg key_mqtt_user cfg s went) f.mqtt_user,
          nvs.get_str-found key_mqtt_pass cfg.mqtt_pass 64 s'
              (find-store_cfg key_mqtt_pass cfg s went) f.mqtt_pass,
          nvs.get_u32-found key_sample_ms cfg.sample_period_ms s'
              (find-store_cfg key_sample_ms cfg s went),
          nvs.get_u8-found key_provisioned (if cfg.provisioned then 1 else 0) s'
              (find-store_cfg key_provisioned cfg s went),
          nvs.get_u8-found key_cloud (u32_of_int cfg.cloud % 256) s'
              (find-store_cfg key_cloud cfg s went),
          flag_byte cfg.provisioned,
          provider-u32_of_int cfg f,
        )
        refl

config_init-ready : (c : Config) → (config_init c).1.ready ≡ true
unfolding config_init
config_init-ready c = elim (Bool-cases c.ready) [ inl e ↦ rw e refl | inr e ↦ rw e refl ]

module _ {S : Type 0} (nvs : Nvs S) where
  load-ready :
      (s : S) (cfg old : RuntimeCfg) (c : Config)
      → c.ready ≡ true
      → stored_cfg nvs s ≡ cfg
      → let (e, loaded, c') = config_load_nvs nvs (pos 0) true s old c in
        (e ≡ ok) × (loaded ≡ cfg) × (c'.cfg ≡ cfg)
  unfolding config_load_nvs
  load-ready s cfg old c ready found = ground (arith, ready, found)

  save-ready :
      (k : EspCodes) (cfg : RuntimeCfg) (c : Config) (s : S)
      → c.ready ≡ true
      → let (e, c', s') = config_save_nvs nvs k (pos 0) (some cfg) c s in
        (e ≡ ok) × (s' ≡ (store_cfg nvs cfg s).1)
  unfolding config_save_nvs
  save-ready k cfg c s ready = ground (arith, ready)

  -- When NVS can be opened, and the nine writes and the commit of the save all go through: a
  -- configuration whose strings fit their arrays, and whose provider fits a byte, is the one that is
  -- loaded after it has been saved and the device restarted, whatever was stored before, and whatever
  -- the memory of the configuration holds after the restart.
  pub config_load_nvs-config_save_nvs :
      (k : EspCodes) (cfg old : RuntimeCfg) (c memory : Config) (s : S)
      → CfgFits cfg
      → c.ready ≡ true
      → (store_cfg nvs cfg s).0 ≡ true
      → let (e, saved, s') = config_save_nvs nvs k (pos 0) (some cfg) c s in
        let (e', loaded, memory') =
          config_load_nvs nvs (pos 0) true (nvs.restart s') old (config_init memory).1 in
        (e ≡ ok) × (e' ≡ ok) × (loaded ≡ cfg) × (memory'.cfg ≡ cfg)
  config_load_nvs-config_save_nvs k cfg old c memory s f ready went =
      let (e, kept) = save-ready k cfg c s ready in
      let found =
        ap (λ r. stored_cfg nvs (nvs.restart r)) kept ∙ stored_cfg-store_cfg nvs cfg s went f in
      let (e', loaded, memory') =
        load-ready (nvs.restart (config_save_nvs nvs k (pos 0) (some cfg) c s).2) cfg old
          (config_init memory).1 (config_init-ready memory) found in
      (e, e', loaded, memory')
