-- ===== src/UseCase/Platform.antt =====
-- components/iot_usecases/src/iot_uc_platform.c: the use cases of the platform itself.
pub mod Settings
use esp32_iot_products.CText.{Text, codes, snprintf, show_u, show_d, concat}
use esp32_iot_products.Security.{Security, default_device_id, validate_command}
use esp32_iot_products.Provision.{ProvisionDev, provision_apply_json}
use esp32_iot_products.Mqtt.{build_topic}
use esp32_iot_products.Ota.{Ota, ota_start, ota_mark_valid}
use esp32_iot_products.Diag.{Diag, diag_snapshot_json}
use esp32_iot_products.UseCase.Json.{json_str, read_i32, holds}
use esp32_iot_products.UseCase.Types.{UcId, In, Out, set_at, Handler, show_b, out_ok, out_err}
use esp32_iot_products.UseCase.Reply.{quoted}
use esp32_iot_products.Core.Log.{log_verbose, Log, log_set_level}
use esp32_iot_products.Core.Config.{RuntimeCfg, Config, defaults, config_load, config_save}
use esp32_iot_products.Core.Err.{Err, ok, invalid_arg}
use esp32_iot_products.Core.Float.{Float}
use esp32_iot_products.Core.Types.{
  device_id_len, topic_len, json_small_len, json_telemetry_len, CommandMsg, zero_command, overwrite,
}
use esp32_iot_products.Prelude.Int.{pos, ltb_ℤ}
use esp32_iot_products.Prelude.Words.{u32_of_int}
use esp32_iot_products.Rtos.Tasks.{Tasks, tasks_request_shutdown}
use esp32_iot_products.Prelude.{
  ◌||◌, length, ◌++◌, false, ◌∷◌, ◌^◌, [], Option, true, some, ◌%◌, none, ◌==◌, Bool, ltb, ℕ,
  if◌then◌else◌,
}

-- The static states that the file's functions reach. `local` is what an uninitialised local
-- `iot_runtime_cfg_t` holds, and `millis` the clock.
pub record Plat : Type 0 where
  pub config : Config
  pub local : RuntimeCfg
  pub tasks : Tasks
  pub ota : Ota
  pub log : Log
  pub security : Security
  pub diag : Diag
  pub millis : ℕ

with_config : Config → Plat → Plat
with_config config d = record d { config = config }

-- What the provisioning component sees.
unfoldable pub provision_dev : Plat → ProvisionDev
provision_dev d = record { config = d.config; tasks = d.tasks; local = d.local }

-- `cfg` as `iot_config_load(&cfg)` leaves it.
loaded : Plat → RuntimeCfg
loaded d = (config_load d.local d.config).1

flag_text : Text → Bool → Text
flag_text name good =
    concat (codes "{\"uc\":" ∷ quoted name ∷ codes ",\"ok\":" ∷ show_b good ∷ codes "}" ∷ [])

module _ {F : Type 0} ⦃fl : Float F⦄ where
  -- `iot_uc_out_ok(out, id, json); out->err = e; return e;`
  closing : UcId → Text → Err → Out F → Plat → Err × Out F × Plat
  closing id json e out d = let out' = out_ok out id json in (e, record out' { err = e }, d)

  pub plt_factory_reset : Handler F Plat
  plt_factory_reset inp out d =
      let (e, config') = config_save defaults d.config in
      closing UcId.plt_factory_reset (codes "{\"uc\":\"plt.factory_reset\",\"provisioned\":false}")
        e out (with_config config' d)

  -- The period asked for, as a `uint32_t`.
  pub sample_ms_of : In F → ℕ
  sample_ms_of inp =
      u32_of_int (
        if holds inp (codes "sample_ms") then read_i32 inp (codes "sample_ms") (pos 0) else inp.i 0)

  pub plt_set_sample_ms : Handler F Plat
  plt_set_sample_ms inp out d =
      let ms = sample_ms_of inp in
      let cfg = loaded d in
      let (e, config') = config_save (record cfg { sample_period_ms = ms }) d.config in
      let text =
        snprintf 96 (codes "{\"uc\":\"plt.set_sample_ms\",\"ms\":" ++ (show_u ms ++ codes "}")) in
      let (e', out', d') = closing UcId.plt_set_sample_ms text e out (with_config config' d) in
      if ltb ms 50 || ltb 60000 ms
      then (invalid_arg, out_err out UcId.plt_set_sample_ms invalid_arg, d)
      else (e', record out' { u = set_at out'.u 0 ms }, d')

  pub plt_get_diag : Handler F Plat
  plt_get_diag inp out d =
      let (e, text) = diag_snapshot_json json_telemetry_len d.millis d.diag in
      (e, record out { json = text; id = UcId.plt_get_diag; err = e }, d)

  -- `in->json != NULL ? in->json : in->s0`
  payload_of : In F → Text
  payload_of inp = elim inp.json [ none ↦ inp.s0 | some json ↦ json ]

  pub plt_provision : Handler F Plat
  plt_provision inp out d =
      let js = payload_of inp in
      let (e, p) = provision_apply_json (some js) (length js) (provision_dev d) in
      let good : Bool = elim e [ ok ↦ true | _ ↦ false ] in
      if length js == 0
      then (invalid_arg, out_err out UcId.plt_provision invalid_arg, d)
      else closing UcId.plt_provision (flag_text (codes "plt.provision") good) e out
          (record d { config = p.config; tasks = p.tasks })

  -- What `out->json` holds once the URL has been read into it.
  url_buffer : In F → Out F → Text
  url_buffer inp out =
      if holds inp (codes "ota_url")
      then (json_str inp.json (codes "ota_url") out.json 200).1
      else out.json

  -- The URL that the command gives; the empty one where it gives none.
  url_of : In F → Out F → Text
  url_of inp out = if holds inp (codes "ota_url") then url_buffer inp out else inp.s1

  -- `local`, of 160 bytes: `none` where there is no URL at all.
  local_url : In F → Out F → Option Text
  local_url inp out =
      let url = url_of inp out in
      let (found, reread) = json_str inp.json (codes "ota_url") [] 160 in
      if length url == 0 then (if found then some reread else none) else some (snprintf 160 url)

  pub plt_ota : Handler F Plat
  plt_ota inp out d =
      let out' : Out F = record out { json = url_buffer inp out } in
      elim (local_url inp out) [
        | none ↦ (invalid_arg, out_err out' UcId.plt_ota invalid_arg, d)
        | some url ↦
            let (e, ota') = ota_start (some url) d.ota in
            closing UcId.plt_ota (codes "{\"uc\":\"plt.ota\",\"started\":1}") e out'
              (record d { ota = ota' })
      ]

  pub plt_identity : Handler F Plat
  plt_identity inp out d =
      let id = d.security in
      (
        ok,
        out_ok out UcId.plt_identity (
            snprintf 192 (
              concat (
                codes "{\"uc\":\"plt.identity\",\"device\":"
                ∷ quoted id.device_id
                ∷ codes ",\"fw\":"
                ∷ quoted id.fw_version
                ∷ codes ",\"profile\":"
                ∷ show_u id.profile
                ∷ codes "}"
                ∷ []))),
        d,
      )

  pub plt_set_cloud : Handler F Plat
  plt_set_cloud inp out d =
      let c =
        if holds inp (codes "cloud") then read_i32 inp (codes "cloud") (inp.i 0) else inp.i 0 in
      let cfg = loaded d in
      let (e, config') = config_save (record cfg { cloud = c }) d.config in
      let text =
        snprintf 80 (codes "{\"uc\":\"plt.set_cloud\",\"cloud\":" ++ (show_d c ++ codes "}")) in
      let (e', out', d') = closing UcId.plt_set_cloud text e out (with_config config' d) in
      if ltb_ℤ c (pos 0) || ltb_ℤ (pos 3) c
      then (invalid_arg, out_err out UcId.plt_set_cloud invalid_arg, d)
      else (e', record out' { i = set_at out'.i 0 c }, d')

  pub plt_set_log_level : Handler F Plat
  plt_set_log_level inp out d =
      let lvl =
        if holds inp (codes "level") then read_i32 inp (codes "level") (inp.i 0) else inp.i 0 in
      if ltb_ℤ lvl (pos 0) || ltb_ℤ log_verbose lvl
      then (invalid_arg, out_err out UcId.plt_set_log_level invalid_arg, d)
      else (
        ok,
        out_ok out UcId.plt_set_log_level (
            snprintf 72
              (codes "{\"uc\":\"plt.set_log_level\",\"level\":" ++ (show_d lvl ++ codes "}"))),
        record d { log = log_set_level lvl d.log },
      )

  pub plt_export_topics : Handler F Plat
  plt_export_topics inp out d =
      let id = (default_device_id [] device_id_len).1 in
      let t = build_topic [] topic_len (some id) (some (codes "telemetry")) in
      (
        ok,
        out_ok out UcId.plt_export_topics (
            snprintf json_small_len (
              concat (
                codes "{\"uc\":\"plt.export_topics\",\"example\":"
                ∷ quoted t
                ∷ codes
                    ",\"list\":[\"telemetry\",\"status\",\"command\",\"config\",\"diagnostics\",\"ota\"]}"
                ∷ []))),
        d,
      )

  pub plt_wifi_backoff : Handler F Plat
  plt_wifi_backoff inp out d =
      let out' =
        out_ok out UcId.plt_wifi_backoff_policy
          (codes "{\"uc\":\"plt.wifi_backoff\",\"min_ms\":1000,\"max_ms\":30000,\"exp\":2}") in
      (ok, record out' { u = set_at (set_at out'.u 0 1000) 1 30000 }, d)

  -- `cmd`: the first 256 bytes of the JSON, in a message of zeros.
  schema_command : In F → CommandMsg
  schema_command inp = elim inp.json [
    | none ↦ zero_command
    | some json ↦
        let n = if ltb json_small_len (length json) then json_small_len else length json in
        let blank = zero_command in
        record blank { payload = overwrite json n blank.payload; payload_len = n % 2 ^ 16 }
  ]

  pub plt_cmd_schema : Handler F Plat
  plt_cmd_schema inp out d =
      let e = validate_command (some (schema_command inp)) in
      let text : Text = elim e [ ok ↦ codes "{\"ok\":1}" | _ ↦ codes "{\"ok\":0}" ] in
      closing UcId.plt_cmd_schema text e out d

  pub plt_mark_ota : Handler F Plat
  plt_mark_ota inp out d =
      closing UcId.plt_mark_ota_valid (codes "{\"uc\":\"plt.mark_ota_valid\"}") ota_mark_valid out d

  pub plt_shutdown : Handler F Plat
  plt_shutdown inp out d = (
    ok,
    out_ok out UcId.plt_shutdown (codes "{\"uc\":\"plt.shutdown\"}"),
    record d { tasks = tasks_request_shutdown d.tasks },
  )
