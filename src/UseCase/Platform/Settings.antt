-- ===== src/UseCase/Platform/Settings.antt =====
-- The settings that the commands of components/iot_usecases/src/iot_uc_platform.c store.
-- The sample period lies between 50 ms and a minute, and the cloud is one of the four.
use esp32_iot_products.CText.{Text}
use esp32_iot_products.Provision.{apply_fields, ProvisionDev, provision_apply_json}
use esp32_iot_products.UseCase.Platform.{
  Plat, provision_dev, plt_factory_reset, plt_set_sample_ms, plt_get_diag, plt_provision, plt_ota,
  plt_identity, plt_set_cloud, plt_set_log_level, plt_export_topics, plt_wifi_backoff,
  plt_cmd_schema, plt_mark_ota, plt_shutdown, with_config, loaded, closing, sample_ms_of,
  payload_of,
}
use esp32_iot_products.UseCase.Types.{Preserves, In, Out}
use esp32_iot_products.Core.Config.{Config, defaults, config_load, config_save}
use esp32_iot_products.Core.Float.{Float}
use esp32_iot_products.Prelude.Int.{pos, ◌≤ℤ◌}
use esp32_iot_products.Prelude.{
  some, Option, arith, none, ℕ, ◌≤◌, length, ◌||◌, ltb, true, ◌≡◌, false, ◌⊎◌,
}
use esp32_iot_products.Core.Err.{ok, invalid_arg, not_init}

pub record SettingsSane (c : Config) : Type 0 where
  pub period_least : 50 ≤ c.cfg.sample_period_ms
  pub period_most : c.cfg.sample_period_ms ≤ 60000
  pub cloud_least : pos 0 ≤ℤ c.cfg.cloud
  pub cloud_most : c.cfg.cloud ≤ℤ pos 3

abbrev pub PlatSane : Plat → Type 0
PlatSane d = SettingsSane d.config

-- A commissioning payload leaves the period and the cloud as they are.
pub provision_apply_json-SettingsSane :
    (json : Option Text) (len : ℕ) (d : ProvisionDev)
    → SettingsSane d.config
    → SettingsSane (provision_apply_json json len d).1.config
unfolding provision_apply_json apply_fields config_load config_save
provision_apply_json-SettingsSane none len d v = v
provision_apply_json-SettingsSane (some json) len d v =
    ground (arith, v.period_least, v.period_most, v.cloud_least, v.cloud_most)

module _ {F : Type 0} ⦃fl : Float F⦄ where
  pub plt_factory_reset-PlatSane : Preserves {F = F} PlatSane plt_factory_reset
  unfolding plt_factory_reset closing config_save with_config defaults
  plt_factory_reset-PlatSane inp out d v =
      ground (arith, v.period_least, v.period_most, v.cloud_least, v.cloud_most)

  pub plt_set_sample_ms-PlatSane : Preserves {F = F} PlatSane plt_set_sample_ms
  unfolding plt_set_sample_ms closing config_save with_config loaded config_load
  plt_set_sample_ms-PlatSane inp out d v =
      ground (arith, v.period_least, v.period_most, v.cloud_least, v.cloud_most)

  pub plt_set_cloud-PlatSane : Preserves {F = F} PlatSane plt_set_cloud
  unfolding plt_set_cloud closing config_save with_config loaded config_load
  plt_set_cloud-PlatSane inp out d v =
      ground (arith, v.period_least, v.period_most, v.cloud_least, v.cloud_most)

  pub plt_provision-PlatSane : Preserves {F = F} PlatSane plt_provision
  unfolding plt_provision closing provision_dev
  plt_provision-PlatSane inp out d v =
      let js = payload_of inp in
      let p = provision_apply_json-SettingsSane (some js) (length js) (provision_dev d) (record {
        period_least = v.period_least;
        period_most = v.period_most;
        cloud_least = v.cloud_least;
        cloud_most = v.cloud_most;
      }) in
      ground (
        arith, v.period_least, v.period_most, v.cloud_least, v.cloud_most, p.period_least,
        p.period_most, p.cloud_least, p.cloud_most,
      )

  pub plt_get_diag-PlatSane : Preserves {F = F} PlatSane plt_get_diag
  unfolding plt_get_diag closing
  plt_get_diag-PlatSane inp out d v =
      ground (arith, v.period_least, v.period_most, v.cloud_least, v.cloud_most)

  pub plt_ota-PlatSane : Preserves {F = F} PlatSane plt_ota
  unfolding plt_ota closing
  plt_ota-PlatSane inp out d v =
      ground (arith, v.period_least, v.period_most, v.cloud_least, v.cloud_most)

  pub plt_identity-PlatSane : Preserves {F = F} PlatSane plt_identity
  unfolding plt_identity closing
  plt_identity-PlatSane inp out d v =
      ground (arith, v.period_least, v.period_most, v.cloud_least, v.cloud_most)

  pub plt_set_log_level-PlatSane : Preserves {F = F} PlatSane plt_set_log_level
  unfolding plt_set_log_level closing
  plt_set_log_level-PlatSane inp out d v =
      ground (arith, v.period_least, v.period_most, v.cloud_least, v.cloud_most)

  pub plt_export_topics-PlatSane : Preserves {F = F} PlatSane plt_export_topics
  unfolding plt_export_topics closing
  plt_export_topics-PlatSane inp out d v =
      ground (arith, v.period_least, v.period_most, v.cloud_least, v.cloud_most)

  pub plt_wifi_backoff-PlatSane : Preserves {F = F} PlatSane plt_wifi_backoff
  unfolding plt_wifi_backoff closing
  plt_wifi_backoff-PlatSane inp out d v =
      ground (arith, v.period_least, v.period_most, v.cloud_least, v.cloud_most)

  pub plt_cmd_schema-PlatSane : Preserves {F = F} PlatSane plt_cmd_schema
  unfolding plt_cmd_schema closing
  plt_cmd_schema-PlatSane inp out d v =
      ground (arith, v.period_least, v.period_most, v.cloud_least, v.cloud_most)

  pub plt_mark_ota-PlatSane : Preserves {F = F} PlatSane plt_mark_ota
  unfolding plt_mark_ota closing
  plt_mark_ota-PlatSane inp out d v =
      ground (arith, v.period_least, v.period_most, v.cloud_least, v.cloud_most)

  pub plt_shutdown-PlatSane : Preserves {F = F} PlatSane plt_shutdown
  unfolding plt_shutdown closing
  plt_shutdown-PlatSane inp out d v =
      ground (arith, v.period_least, v.period_most, v.cloud_least, v.cloud_most)

  -- A sample period outside 50 ms to a minute is refused and nothing is stored. Any other is stored
  -- once the configuration is up, and reported in the reply; before that, nothing is stored, and the
  -- command says so.
  pub plt_set_sample_ms_lem :
      (inp : In F) (out : Out F) (d : Plat)
      → let (e, out', d') = plt_set_sample_ms inp out d in
        let ms = sample_ms_of inp in
        ((e ≡ invalid_arg) × (ltb ms 50 || ltb 60000 ms ≡ true) × (d' ≡ d))
        ⊎ ((e ≡ ok)
            × (d.config.ready ≡ true)
            × (50 ≤ ms)
            × (ms ≤ 60000)
            × (d'.config.cfg ≡ record (d.config.cfg) { sample_period_ms = ms })
            × (out'.u 0 ≡ ms))
        ⊎ ((e ≡ not_init) × (d.config.ready ≡ false) × (d'.config ≡ d.config))
  unfolding plt_set_sample_ms closing config_save with_config loaded config_load
  plt_set_sample_ms_lem inp out d = ground arith
