-- ===== src/UseCase/Run.antt =====
-- The dispatcher of components/iot_usecases/src/iot_uc.c: the column `fn` of its table, over the
-- static states of all files, and the three ways in. A handler sees its own part of the state.
pub mod Safety
pub mod Reach
pub mod Names
pub mod Lift
pub mod Rejects
use esp32_iot_products.CText.{Text, codes}
use esp32_iot_products.UseCase.Charger.{
  Ev, ev_start, ev_stop, ev_fault, ev_sample, ev_reject_contactor, ev_session, ev_get_state,
}
use esp32_iot_products.UseCase.Water.{
  Water, WaterDev, water_billing, water_leak, water_burst, water_meter, water_valve_open,
  water_valve_close, water_tamper, water_set_k, water_get_state,
}
use esp32_iot_products.UseCase.Platform.{
  Plat, plt_wifi_backoff, plt_mark_ota, plt_factory_reset, plt_set_sample_ms, plt_get_diag,
  plt_provision, plt_ota, plt_identity, plt_set_cloud, plt_set_log_level, plt_export_topics,
  plt_cmd_schema, plt_shutdown,
}
use esp32_iot_products.UseCase.Json.{json_str, json_f32, json_i32}
use esp32_iot_products.UseCase.Energy.{
  Energy, EnergyDev, energy_led_alarm, energy_measure, energy_accum, energy_over_power,
  energy_over_voltage, energy_under_voltage, energy_over_current, energy_set_limits,
  energy_calibrate, energy_reset_daily, energy_pf, energy_get_state,
}
use esp32_iot_products.UseCase.Predictive.{Pm, pm_health, pm_features, pm_trend, pm_reset_peak}
use esp32_iot_products.UseCase.Robot.{
  Robot, robot_hb, robot_reject, robot_estop, robot_batt, robot_uart,
}
use esp32_iot_products.UseCase.Agri.{
  AgriDev, agri_soil, agri_pump_auto, agri_pump_on, agri_pump_off, agri_schedule, agri_inhibit,
}
use esp32_iot_products.UseCase.Industrial.{
  Ind, ind_state, ind_ack, ind_hours, ind_sample, ind_set_limits, ind_pulse,
}
use esp32_iot_products.UseCase.Types.{UcId, In, Out, set_at, Handler, zero_in, zero_out, out_err}
use esp32_iot_products.UseCase.Catalog.{find_id, id_from_name, Row}
use esp32_iot_products.UseCase.ColdChain.{
  Cold, cold_sample, cold_excursion, cold_door, cold_ack, cold_datalog,
}
use esp32_iot_products.UseCase.Automotive.{
  Can, auto_filter, auto_decode, auto_reject_tx, auto_bus_off, auto_dtc, auto_get_state,
}
use esp32_iot_products.UseCase.Tracker.{
  Tracker, trk_batt, trk_geo, trk_beacon, trk_motion, trk_sleep,
}
use esp32_iot_products.Core.Err.{Err, invalid_arg, not_found, protocol}
use esp32_iot_products.Core.Float.{Float}
use esp32_iot_products.Core.Types.{CommandMsg, text_of}
use esp32_iot_products.Drivers.Gpio.{Gpio}
use esp32_iot_products.Prelude.{[], Option, true, some, none, ◌==◌, Bool, ℕ, if◌then◌else◌}

-- The static states of components/iot_usecases and of what its handlers call. `init` is `s_init`.
pub record World (F : Type 0) : Type 0 where
  pub init : Bool
  pub plat : Plat
  pub energy : Energy F
  pub gpio : Gpio
  pub ind : Ind F
  pub pm : Pm F
  pub water : Water F
  pub ev : Ev F
  pub can : Can
  pub trk : Tracker
  pub agri : AgriDev
  pub cold : Cold F
  pub robot : Robot

module _ {F : Type 0} where
  pub on_plat : Handler F Plat → Handler F (World F)
  on_plat h inp out σ = let (e, out', s) = h inp out σ.plat in (e, out', record σ { plat = s })

  pub on_ind : Handler F (Ind F) → Handler F (World F)
  on_ind h inp out σ = let (e, out', s) = h inp out σ.ind in (e, out', record σ { ind = s })

  pub on_pm : Handler F (Pm F) → Handler F (World F)
  on_pm h inp out σ = let (e, out', s) = h inp out σ.pm in (e, out', record σ { pm = s })

  pub on_ev : Handler F (Ev F) → Handler F (World F)
  on_ev h inp out σ = let (e, out', s) = h inp out σ.ev in (e, out', record σ { ev = s })

  pub on_can : Handler F Can → Handler F (World F)
  on_can h inp out σ = let (e, out', s) = h inp out σ.can in (e, out', record σ { can = s })

  pub on_trk : Handler F Tracker → Handler F (World F)
  on_trk h inp out σ = let (e, out', s) = h inp out σ.trk in (e, out', record σ { trk = s })

  pub on_agri : Handler F AgriDev → Handler F (World F)
  on_agri h inp out σ = let (e, out', s) = h inp out σ.agri in (e, out', record σ { agri = s })

  pub on_cold : Handler F (Cold F) → Handler F (World F)
  on_cold h inp out σ = let (e, out', s) = h inp out σ.cold in (e, out', record σ { cold = s })

  pub on_robot : Handler F Robot → Handler F (World F)
  on_robot h inp out σ = let (e, out', s) = h inp out σ.robot in (e, out', record σ { robot = s })

  pub on_energy : Handler F (EnergyDev F) → Handler F (World F)
  on_energy h inp out σ =
      let (e, out', d) = h inp out (record { s = σ.energy; gpio = σ.gpio }) in
      (e, out', record σ { energy = d.s; gpio = d.gpio })

  pub on_water : Handler F (WaterDev F) → Handler F (World F)
  on_water h inp out σ =
      let (e, out', d) = h inp out (record { w = σ.water; gpio = σ.gpio }) in
      (e, out', record σ { water = d.w; gpio = d.gpio })

module _ {F : Type 0} ⦃fl : Float F⦄ where
  -- The column `fn`: no row has the id `invalid`.
  pub fn_of : UcId → Option (Handler F (World F))
  fn_of UcId.invalid = none
  fn_of UcId.plt_factory_reset = some (on_plat plt_factory_reset)
  fn_of UcId.plt_set_sample_ms = some (on_plat plt_set_sample_ms)
  fn_of UcId.plt_get_diag = some (on_plat plt_get_diag)
  fn_of UcId.plt_provision = some (on_plat plt_provision)
  fn_of UcId.plt_ota = some (on_plat plt_ota)
  fn_of UcId.plt_identity = some (on_plat plt_identity)
  fn_of UcId.plt_set_cloud = some (on_plat plt_set_cloud)
  fn_of UcId.plt_set_log_level = some (on_plat plt_set_log_level)
  fn_of UcId.plt_export_topics = some (on_plat plt_export_topics)
  fn_of UcId.plt_wifi_backoff_policy = some (on_plat plt_wifi_backoff)
  fn_of UcId.plt_cmd_schema = some (on_plat plt_cmd_schema)
  fn_of UcId.plt_mark_ota_valid = some (on_plat plt_mark_ota)
  fn_of UcId.plt_shutdown = some (on_plat plt_shutdown)
  fn_of UcId.energy_measure = some (on_energy energy_measure)
  fn_of UcId.energy_accum = some (on_energy energy_accum)
  fn_of UcId.energy_over_power = some (on_energy energy_over_power)
  fn_of UcId.energy_over_voltage = some (on_energy energy_over_voltage)
  fn_of UcId.energy_under_voltage = some (on_energy energy_under_voltage)
  fn_of UcId.energy_over_current = some (on_energy energy_over_current)
  fn_of UcId.energy_set_limits = some (on_energy energy_set_limits)
  fn_of UcId.energy_calibrate = some (on_energy energy_calibrate)
  fn_of UcId.energy_reset_daily = some (on_energy energy_reset_daily)
  fn_of UcId.energy_pf = some (on_energy energy_pf)
  fn_of UcId.energy_get_state = some (on_energy energy_get_state)
  fn_of UcId.energy_led_alarm = some (on_energy energy_led_alarm)
  fn_of UcId.ind_sample = some (on_ind ind_sample)
  fn_of UcId.ind_state_machine = some (on_ind ind_state)
  fn_of UcId.ind_set_limits = some (on_ind ind_set_limits)
  fn_of UcId.ind_ack_alarm = some (on_ind ind_ack)
  fn_of UcId.ind_hours_tick = some (on_ind ind_hours)
  fn_of UcId.ind_pulse = some (on_ind ind_pulse)
  fn_of UcId.pm_features = some (on_pm pm_features)
  fn_of UcId.pm_health = some (on_pm pm_health)
  fn_of UcId.pm_trend = some (on_pm pm_trend)
  fn_of UcId.pm_reset_peak = some (on_pm pm_reset_peak)
  fn_of UcId.water_meter = some (on_water water_meter)
  fn_of UcId.water_leak = some (on_water water_leak)
  fn_of UcId.water_burst = some (on_water water_burst)
  fn_of UcId.water_valve_open = some (on_water water_valve_open)
  fn_of UcId.water_valve_close = some (on_water water_valve_close)
  fn_of UcId.water_tamper = some (on_water water_tamper)
  fn_of UcId.water_billing_freeze = some (on_water water_billing)
  fn_of UcId.water_set_k = some (on_water water_set_k)
  fn_of UcId.water_get_state = some (on_water water_get_state)
  fn_of UcId.ev_sample = some (on_ev ev_sample)
  fn_of UcId.ev_start_req = some (on_ev ev_start)
  fn_of UcId.ev_stop_req = some (on_ev ev_stop)
  fn_of UcId.ev_reject_contactor = some (on_ev ev_reject_contactor)
  fn_of UcId.ev_session = some (on_ev ev_session)
  fn_of UcId.ev_fault_latch = some (on_ev ev_fault)
  fn_of UcId.ev_get_state = some (on_ev ev_get_state)
  fn_of UcId.auto_filter = some (on_can auto_filter)
  fn_of UcId.auto_decode = some (on_can auto_decode)
  fn_of UcId.auto_reject_tx = some (on_can auto_reject_tx)
  fn_of UcId.auto_bus_off = some (on_can auto_bus_off)
  fn_of UcId.auto_dtc = some (on_can auto_dtc)
  fn_of UcId.auto_get_state = some (on_can auto_get_state)
  fn_of UcId.trk_beacon = some (on_trk trk_beacon)
  fn_of UcId.trk_motion = some (on_trk trk_motion)
  fn_of UcId.trk_batt_low = some (on_trk trk_batt)
  fn_of UcId.trk_geofence = some (on_trk trk_geo)
  fn_of UcId.trk_sleep = some (on_trk trk_sleep)
  fn_of UcId.agri_soil = some (on_agri agri_soil)
  fn_of UcId.agri_pump_auto = some (on_agri agri_pump_auto)
  fn_of UcId.agri_pump_on = some (on_agri agri_pump_on)
  fn_of UcId.agri_pump_off = some (on_agri agri_pump_off)
  fn_of UcId.agri_schedule = some (on_agri agri_schedule)
  fn_of UcId.agri_inhibit = some (on_agri agri_inhibit)
  fn_of UcId.cold_sample = some (on_cold cold_sample)
  fn_of UcId.cold_excursion = some (on_cold cold_excursion)
  fn_of UcId.cold_door = some (on_cold cold_door)
  fn_of UcId.cold_ack = some (on_cold cold_ack)
  fn_of UcId.cold_datalog = some (on_cold cold_datalog)
  fn_of UcId.robot_uart = some (on_robot robot_uart)
  fn_of UcId.robot_heartbeat = some (on_robot robot_hb)
  fn_of UcId.robot_reject_motion = some (on_robot robot_reject)
  fn_of UcId.robot_estop_report = some (on_robot robot_estop)
  fn_of UcId.robot_battery = some (on_robot robot_batt)

  -- `in`, or a zeroed one where it is NULL.
  pub or_dummy : Option (In F) → In F
  or_dummy none = zero_in
  or_dummy (some inp) = inp

  -- `r->fn`, where there is a row.
  row_fn : Option Row → Option (Handler F (World F))
  row_fn none = none
  row_fn (some r) = fn_of r.id

  -- The end of `iot_uc_run`, from the test of `r` and of `r->fn` on.
  pub call :
      Option (Handler F (World F)) → UcId → In F → Out F → World F → Err × Option (Out F) × World F
  call none id inp out σ = (not_found, some (out_err out id not_found), σ)
  call (some fn) id inp out σ = let (e, out', σ') = fn inp out σ in (e, some out', σ')

  -- `out` is NULL for `none`.
  pub run : UcId → Option (In F) → Option (Out F) → World F → Err × Option (Out F) × World F
  run id inp none σ = (invalid_arg, none, σ)
  run id inp (some old) σ =
      call (row_fn (find_id id)) id (or_dummy inp) zero_out (record σ { init = true })

  -- `in`, as `iot_uc_run_json` fills it.
  pub json_input : Text → ℕ → In F
  json_input json len =
      let blank : In F = zero_in in
      let js = some json in
      record blank {
        json = js;
        json_len = len;
        f =
            set_at
              (set_at (set_at blank.f 0 (json_f32 js (codes "f0") (blank.f 0)).1) 1
                (json_f32 js (codes "f1") (blank.f 1)).1)
              2 (json_f32 js (codes "f2") (blank.f 2)).1;
        i = set_at blank.i 0 (json_i32 F js (codes "i0") (blank.i 0)).1;
        s0 = (json_str js (codes "s0") [] 64).1;
        s1 = (json_str js (codes "ota_url") [] 160).1;
      }

  pub run_json : Option Text → ℕ → Option (Out F) → World F → Err × Option (Out F) × World F
  run_json none len out σ = (invalid_arg, out, σ)
  run_json (some json) len none σ = (invalid_arg, none, σ)
  run_json (some json) len (some out) σ =
      let (found, name) = json_str (some json) (codes "uc") [] 48 in
      if len == 0
      then (invalid_arg, some out, σ)
      else (if found
          then run (id_from_name (some name)) (some (json_input json len)) (some out) σ
          else (protocol, some (out_err out UcId.invalid protocol), σ))

  -- The payload is read as a text. `none` where it has no NUL: the readers run past its end.
  unfoldable pub dispatch_command :
      Option CommandMsg → Option (Out F) → World F → Option (Err × Option (Out F) × World F)
  dispatch_command none out σ = some (invalid_arg, out, σ)
  dispatch_command (some cmd) out σ =
      if cmd.payload_len == 0 then some (invalid_arg, out, σ) else elim (text_of cmd.payload) [
        | none ↦ none
        | some json ↦ some (run_json (some json) cmd.payload_len out σ)
      ]
