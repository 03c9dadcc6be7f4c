-- ===== src/UseCase/Run/Safety.antt =====
-- What holds of the static states of components/iot_usecases after every command.
use esp32_iot_products.UseCase.Run.{run, World, fn_of, or_dummy, call, row_fn}
use esp32_iot_products.UseCase.Charger.{
  ev_sample, ev_reject_contactor, ev_start, ev_stop, ev_session, ev_fault, ev_get_state,
}
use esp32_iot_products.UseCase.Water.{
  water_leak, water_burst, water_meter, water_valve_open, water_valve_close, water_tamper,
  water_billing, water_set_k, water_get_state,
}
use esp32_iot_products.UseCase.Platform.{
  plt_factory_reset, plt_set_sample_ms, plt_get_diag, plt_provision, plt_ota, plt_identity,
  plt_set_cloud, plt_set_log_level, plt_export_topics, plt_wifi_backoff, plt_cmd_schema,
  plt_mark_ota, plt_shutdown,
}
use esp32_iot_products.UseCase.Energy.{
  energy_led_alarm, energy_measure, energy_accum, energy_over_power, energy_over_voltage,
  energy_under_voltage, energy_over_current, energy_set_limits, energy_calibrate,
  energy_reset_daily, energy_pf, energy_get_state,
}
use esp32_iot_products.UseCase.Predictive.{pm_health, pm_features, pm_trend, pm_reset_peak}
use esp32_iot_products.UseCase.Robot.{robot_uart, robot_hb, robot_reject, robot_estop, robot_batt}
use esp32_iot_products.UseCase.Agri.{
  agri_soil, agri_pump_auto, agri_pump_on, agri_pump_off, agri_schedule, agri_inhibit,
}
use esp32_iot_products.UseCase.Industrial.{
  ind_sample, ind_state, ind_set_limits, ind_ack, ind_hours, ind_pulse,
}
use esp32_iot_products.UseCase.Types.{UcId, In, Out, Handler, zero_out, Preserves}
use esp32_iot_products.UseCase.Automotive.{
  auto_filter, auto_decode, auto_reject_tx, auto_bus_off, auto_dtc, auto_get_state,
}
use esp32_iot_products.UseCase.Tracker.{trk_beacon, trk_motion, trk_sleep, trk_batt, trk_geo}
use esp32_iot_products.UseCase.ColdChain.{
  cold_sample, cold_excursion, cold_door, cold_ack, cold_datalog,
}
use esp32_iot_products.UseCase.Catalog.{Row, find_id}
use esp32_iot_products.UseCase.Automotive.Frames.{
  auto_filter-AllowListFixed, auto_decode-AllowListFixed, auto_reject_tx-AllowListFixed,
  auto_bus_off-AllowListFixed, auto_dtc-AllowListFixed, auto_get_state-AllowListFixed,
}
use esp32_iot_products.UseCase.Run.Lift.{
  WorldSafe, on_pm-WorldSafe, on_ev-WorldSafe, on_cold-WorldSafe, on_robot-WorldSafe,
  on_energy-WorldSafe, on_ind-WorldSafe, on_agri-WorldSafe, on_trk-WorldSafe, on_can-WorldSafe,
  on_plat-WorldSafe, on_water-WorldSafe,
}
use esp32_iot_products.UseCase.Water.Valve.{
  water_leak-TamperShut, water_burst-TamperShut, water_meter-TamperShut,
  water_valve_open-TamperShut, water_valve_close-TamperShut, water_tamper-TamperShut,
  water_billing-TamperShut, water_set_k-TamperShut, water_get_state-TamperShut,
}
use esp32_iot_products.UseCase.Platform.Settings.{
  plt_factory_reset-PlatSane, plt_set_sample_ms-PlatSane, plt_set_cloud-PlatSane,
  plt_provision-PlatSane, plt_get_diag-PlatSane, plt_ota-PlatSane, plt_identity-PlatSane,
  plt_set_log_level-PlatSane, plt_export_topics-PlatSane, plt_wifi_backoff-PlatSane,
  plt_cmd_schema-PlatSane, plt_mark_ota-PlatSane, plt_shutdown-PlatSane,
}
use esp32_iot_products.UseCase.Agri.Pump.{
  agri_soil-PumpSafe, agri_pump_auto-PumpSafe, agri_pump_on-PumpSafe, agri_pump_off-PumpSafe,
  agri_schedule-PumpSafe, agri_inhibit-PumpSafe,
}
use esp32_iot_products.UseCase.Industrial.Faults.{
  ind_sample-AsksAck, ind_state-AsksAck, ind_set_limits-AsksAck, ind_ack-AsksAck, ind_hours-AsksAck,
  ind_pulse-AsksAck,
}
use esp32_iot_products.UseCase.Tracker.Bounds.{
  trk_beacon-SleepBounded, trk_motion-SleepBounded, trk_batt-SleepBounded, trk_geo-SleepBounded,
  trk_sleep-SleepBounded,
}
use esp32_iot_products.Core.Float.{Float}
use esp32_iot_products.Prelude.{none, Option, some, true}

module _ {F : Type 0} ⦃fl : Float F⦄ where
  -- The handler of a row keeps the states safe, if there is one.
  abbrev pub FnSafe : Option (Handler F (World F)) → Type 0
  FnSafe none = Unit {0}
  FnSafe (some fn) = Preserves WorldSafe fn

module _ (F : Type 0) ⦃fl : Float F⦄ where
  fn_of-FnSafe : (id : UcId) → FnSafe (fn_of {F = F} id)
  unfolding fn_of
  fn_of-FnSafe UcId.invalid = tt
  fn_of-FnSafe UcId.plt_factory_reset =
      on_plat-WorldSafe plt_factory_reset plt_factory_reset-PlatSane
  fn_of-FnSafe UcId.plt_set_sample_ms =
      on_plat-WorldSafe plt_set_sample_ms plt_set_sample_ms-PlatSane
  fn_of-FnSafe UcId.plt_get_diag = on_plat-WorldSafe plt_get_diag plt_get_diag-PlatSane
  fn_of-FnSafe UcId.plt_provision = on_plat-WorldSafe plt_provision plt_provision-PlatSane
  fn_of-FnSafe UcId.plt_ota = on_plat-WorldSafe plt_ota plt_ota-PlatSane
  fn_of-FnSafe UcId.plt_identity = on_plat-WorldSafe plt_identity plt_identity-PlatSane
  fn_of-FnSafe UcId.plt_set_cloud = on_plat-WorldSafe plt_set_cloud plt_set_cloud-PlatSane
  fn_of-FnSafe UcId.plt_set_log_level =
      on_plat-WorldSafe plt_set_log_level plt_set_log_level-PlatSane
  fn_of-FnSafe UcId.plt_export_topics =
      on_plat-WorldSafe plt_export_topics plt_export_topics-PlatSane
  fn_of-FnSafe UcId.plt_wifi_backoff_policy =
      on_plat-WorldSafe plt_wifi_backoff plt_wifi_backoff-PlatSane
  fn_of-FnSafe UcId.plt_cmd_schema = on_plat-WorldSafe plt_cmd_schema plt_cmd_schema-PlatSane
  fn_of-FnSafe UcId.plt_mark_ota_valid = on_plat-WorldSafe plt_mark_ota plt_mark_ota-PlatSane
  fn_of-FnSafe UcId.plt_shutdown = on_plat-WorldSafe plt_shutdown plt_shutdown-PlatSane
  fn_of-FnSafe UcId.energy_measure = on_energy-WorldSafe energy_measure
  fn_of-FnSafe UcId.energy_accum = on_energy-WorldSafe energy_accum
  fn_of-FnSafe UcId.energy_over_power = on_energy-WorldSafe energy_over_power
  fn_of-FnSafe UcId.energy_over_voltage = on_energy-WorldSafe energy_over_voltage
  fn_of-FnSafe UcId.energy_under_voltage = on_energy-WorldSafe energy_under_voltage
  fn_of-FnSafe UcId.energy_over_current = on_energy-WorldSafe energy_over_current
  fn_of-FnSafe UcId.energy_set_limits = on_energy-WorldSafe energy_set_limits
  fn_of-FnSafe UcId.energy_calibrate = on_energy-WorldSafe energy_calibrate
  fn_of-FnSafe UcId.energy_reset_daily = on_energy-WorldSafe energy_reset_daily
  fn_of-FnSafe UcId.energy_pf = on_energy-WorldSafe energy_pf
  fn_of-FnSafe UcId.energy_get_state = on_energy-WorldSafe energy_get_state
  fn_of-FnSafe UcId.energy_led_alarm = on_energy-WorldSafe energy_led_alarm
  fn_of-FnSafe UcId.ind_sample = on_ind-WorldSafe ind_sample ind_sample-AsksAck
  fn_of-FnSafe UcId.ind_state_machine = on_ind-WorldSafe ind_state ind_state-AsksAck
  fn_of-FnSafe UcId.ind_set_limits = on_ind-WorldSafe ind_set_limits ind_set_limits-AsksAck
  fn_of-FnSafe UcId.ind_ack_alarm = on_ind-WorldSafe ind_ack ind_ack-AsksAck
  fn_of-FnSafe UcId.ind_hours_tick = on_ind-WorldSafe ind_hours ind_hours-AsksAck
  fn_of-FnSafe UcId.ind_pulse = on_ind-WorldSafe ind_pulse ind_pulse-AsksAck
  fn_of-FnSafe UcId.pm_features = on_pm-WorldSafe pm_features
  fn_of-FnSafe UcId.pm_health = on_pm-WorldSafe pm_health
  fn_of-FnSafe UcId.pm_trend = on_pm-WorldSafe pm_trend
  fn_of-FnSafe UcId.pm_reset_peak = on_pm-WorldSafe pm_reset_peak
  fn_of-FnSafe UcId.water_meter = on_water-WorldSafe water_meter water_meter-TamperShut
  fn_of-FnSafe UcId.water_leak = on_water-WorldSafe water_leak water_leak-TamperShut
  fn_of-FnSafe UcId.water_burst = on_water-WorldSafe water_burst water_burst-TamperShut
  fn_of-FnSafe UcId.water_valve_open =
      on_water-WorldSafe water_valve_open water_valve_open-TamperShut
  fn_of-FnSafe UcId.water_valve_close =
      on_water-WorldSafe water_valve_close water_valve_close-TamperShut
  fn_of-FnSafe UcId.water_tamper = on_water-WorldSafe water_tamper water_tamper-TamperShut
  fn_of-FnSafe UcId.water_billing_freeze = on_water-WorldSafe water_billing water_billing-TamperShut
  fn_of-FnSafe UcId.water_set_k = on_water-WorldSafe water_set_k water_set_k-TamperShut
  fn_of-FnSafe UcId.water_get_state = on_water-WorldSafe water_get_state water_get_state-TamperShut
  fn_of-FnSafe UcId.ev_sample = on_ev-WorldSafe ev_sample
  fn_of-FnSafe UcId.ev_start_req = on_ev-WorldSafe ev_start
  fn_of-FnSafe UcId.ev_stop_req = on_ev-WorldSafe ev_stop
  fn_of-FnSafe UcId.ev_reject_contactor = on_ev-WorldSafe ev_reject_contactor
  fn_of-FnSafe UcId.ev_session = on_ev-WorldSafe ev_session
  fn_of-FnSafe UcId.ev_fault_latch = on_ev-WorldSafe ev_fault
  fn_of-FnSafe UcId.ev_get_state = on_ev-WorldSafe ev_get_state
  fn_of-FnSafe UcId.auto_filter = on_can-WorldSafe auto_filter auto_filter-AllowListFixed
  fn_of-FnSafe UcId.auto_decode = on_can-WorldSafe auto_decode auto_decode-AllowListFixed
  fn_of-FnSafe UcId.auto_reject_tx = on_can-WorldSafe auto_reject_tx auto_reject_tx-AllowListFixed
  fn_of-FnSafe UcId.auto_bus_off = on_can-WorldSafe auto_bus_off auto_bus_off-AllowListFixed
  fn_of-FnSafe UcId.auto_dtc = on_can-WorldSafe auto_dtc auto_dtc-AllowListFixed
  fn_of-FnSafe UcId.auto_get_state = on_can-WorldSafe auto_get_state auto_get_state-AllowListFixed
  fn_of-FnSafe UcId.trk_beacon = on_trk-WorldSafe trk_beacon trk_beacon-SleepBounded
  fn_of-FnSafe UcId.trk_motion = on_trk-WorldSafe trk_motion trk_motion-SleepBounded
  fn_of-FnSafe UcId.trk_batt_low = on_trk-WorldSafe trk_batt trk_batt-SleepBounded
  fn_of-FnSafe UcId.trk_geofence = on_trk-WorldSafe trk_geo trk_geo-SleepBounded
  fn_of-FnSafe UcId.trk_sleep = on_trk-WorldSafe trk_sleep trk_sleep-SleepBounded
  fn_of-FnSafe UcId.agri_soil = on_agri-WorldSafe agri_soil agri_soil-PumpSafe
  fn_of-FnSafe UcId.agri_pump_auto = on_agri-WorldSafe agri_pump_auto agri_pump_auto-PumpSafe
  fn_of-FnSafe UcId.agri_pump_on = on_agri-WorldSafe agri_pump_on agri_pump_on-PumpSafe
  fn_of-FnSafe UcId.agri_pump_off = on_agri-WorldSafe agri_pump_off agri_pump_off-PumpSafe
  fn_of-FnSafe UcId.agri_schedule = on_agri-WorldSafe agri_schedule agri_schedule-PumpSafe
  fn_of-FnSafe UcId.agri_inhibit = on_agri-WorldSafe agri_inhibit agri_inhibit-PumpSafe
  fn_of-FnSafe UcId.cold_sample = on_cold-WorldSafe cold_sample
  fn_of-FnSafe UcId.cold_excursion = on_cold-WorldSafe cold_excursion
  fn_of-FnSafe UcId.cold_door = on_cold-WorldSafe cold_door
  fn_of-FnSafe UcId.cold_ack = on_cold-WorldSafe cold_ack
  fn_of-FnSafe UcId.cold_datalog = on_cold-WorldSafe cold_datalog
  fn_of-FnSafe UcId.robot_uart = on_robot-WorldSafe robot_uart
  fn_of-FnSafe UcId.robot_heartbeat = on_robot-WorldSafe robot_hb
  fn_of-FnSafe UcId.robot_reject_motion = on_robot-WorldSafe robot_reject
  fn_of-FnSafe UcId.robot_estop_report = on_robot-WorldSafe robot_estop
  fn_of-FnSafe UcId.robot_battery = on_robot-WorldSafe robot_batt

  row_fn-FnSafe : (r : Option Row) → FnSafe (row_fn {F = F} r)
  unfolding row_fn
  row_fn-FnSafe none = tt
  row_fn-FnSafe (some r) = fn_of-FnSafe r.id

module _ {F : Type 0} ⦃fl : Float F⦄ where
  call-WorldSafe :
      (fn : Option (Handler F (World F))) (id : UcId) (inp : In F) (out : Out F) (σ : World F)
      → FnSafe fn
      → WorldSafe σ
      → WorldSafe (call fn id inp out σ).2
  unfolding call
  call-WorldSafe none id inp out σ p v = v
  call-WorldSafe (some fn) id inp out σ p v = p inp out σ v

  -- Every command, known or not, with any input, keeps the states safe.
  pub run-WorldSafe :
      (id : UcId) (inp : Option (In F)) (out : Option (Out F)) (σ : World F)
      → WorldSafe σ
      → WorldSafe (run id inp out σ).2
  unfolding run
  run-WorldSafe id inp none σ v = v
  run-WorldSafe id inp (some old) σ v =
      call-WorldSafe (row_fn (find_id id)) id (or_dummy inp) zero_out (record σ { init = true })
        (row_fn-FnSafe F (find_id id))
        (record {
          ind_safe = v.ind_safe;
          water_safe = v.water_safe;
          agri_safe = v.agri_safe;
          trk_safe = v.trk_safe;
          can_safe = v.can_safe;
          plat_safe = v.plat_safe;
        })
