-- ===== src/UseCase/Catalog.antt =====
-- The table `s_tab` of components/iot_usecases/src/iot_uc.c and the functions that look in it. The
-- column `fn` stands in UseCase/Run.antt, since the handlers use the names.
pub mod Laws
use mathlib.Core.List.{◌++◌}
use esp32_iot_products.Prelude.{ℕ, List, [], ◌∷◌, ◌==◌, Option, none, some, if◌then◌else◌, length}
use esp32_iot_products.CText.{Text, codes, text_eq}
use esp32_iot_products.UseCase.Types.{UcId, invalid, uc_num}

-- `iot_uc_entry_t`, without `fn`
pub record Row : Type 0 where
  pub id : UcId
  pub name : Text
  pub summary : Text

abbrev row : UcId → Text → Text → Row
row id name summary = record { id = id; name = name; summary = summary }

platform_rows : List Row
platform_rows =
    row UcId.plt_factory_reset (codes "plt.factory_reset")
      (codes "Clear NVS provisioned credentials to defaults")
    ∷ row UcId.plt_set_sample_ms (codes "plt.set_sample_ms")
        (codes "Set telemetry sample period milliseconds")
    ∷ row UcId.plt_get_diag (codes "plt.get_diag") (codes "Return diagnostic snapshot JSON")
    ∷ row UcId.plt_provision (codes "plt.provision")
        (codes "Apply BLE/MQTT commissioning JSON to NVS")
    ∷ row UcId.plt_ota (codes "plt.ota") (codes "Start HTTPS OTA from ota_url")
    ∷ row UcId.plt_identity (codes "plt.identity") (codes "Return device id / fw / profile")
    ∷ row UcId.plt_set_cloud (codes "plt.set_cloud")
        (codes "Select AWS/Azure/GCP/generic MQTT profile id")
    ∷ row UcId.plt_set_log_level (codes "plt.set_log_level")
        (codes "Set platform log verbosity 1-5")
    ∷ row UcId.plt_export_topics (codes "plt.export_topics") (codes "List MQTT topic suffixes")
    ∷ row UcId.plt_wifi_backoff_policy (codes "plt.wifi_backoff")
        (codes "Document reconnect backoff bounds")
    ∷ row UcId.plt_cmd_schema (codes "plt.cmd_schema")
        (codes "Validate inbound command is JSON object")
    ∷ row UcId.plt_mark_ota_valid (codes "plt.mark_ota_valid")
        (codes "Cancel rollback after healthy boot")
    ∷ row UcId.plt_shutdown (codes "plt.shutdown") (codes "Request orderly task shutdown bit")
    ∷ []

energy_rows : List Row
energy_rows =
    row UcId.energy_measure (codes "energy.measure")
      (codes "Sample V/I, compute P/kWh, evaluate alarms")
    ∷ row UcId.energy_accum (codes "energy.accum") (codes "Accumulate energy for dt_ms")
    ∷ row UcId.energy_over_power (codes "energy.over_power") (codes "Trip over-power threshold")
    ∷ row UcId.energy_over_voltage (codes "energy.over_voltage") (codes "Trip over-voltage")
    ∷ row UcId.energy_under_voltage (codes "energy.under_voltage") (codes "Trip under-voltage")
    ∷ row UcId.energy_over_current (codes "energy.over_current") (codes "Trip over-current")
    ∷ row UcId.energy_set_limits (codes "energy.set_limits") (codes "Configure V/I/P alarm limits")
    ∷ row UcId.energy_calibrate (codes "energy.calibrate") (codes "Set V and I scale factors")
    ∷ row UcId.energy_reset_daily (codes "energy.reset_daily") (codes "Zero daily kWh register")
    ∷ row UcId.energy_pf (codes "energy.pf") (codes "Update power-factor estimate")
    ∷ row UcId.energy_get_state (codes "energy.get_state") (codes "Dump energy registers as JSON")
    ∷ row UcId.energy_led_alarm (codes "energy.led_alarm") (codes "Drive alarm LED from last trip")
    ∷ []

industrial_rows : List Row
industrial_rows =
    row UcId.ind_sample (codes "industrial.sample") (codes "Ingest temp/vib/current/pressure")
    ∷ row UcId.ind_state_machine (codes "industrial.state")
        (codes "STOP/IDLE/RUN/WARN/FAULT machine")
    ∷ row UcId.ind_set_limits (codes "industrial.set_limits") (codes "Set industrial alarm limits")
    ∷ row UcId.ind_ack_alarm (codes "industrial.ack") (codes "Acknowledge latched FAULT to IDLE")
    ∷ row UcId.ind_hours_tick (codes "industrial.hours") (codes "Add operating hours while RUN")
    ∷ row UcId.ind_pulse (codes "industrial.pulse") (codes "Accumulate shaft/flow pulse count")
    ∷ row UcId.pm_features (codes "predictive.features") (codes "RMS/peak/crest vibration features")
    ∷ row UcId.pm_health (codes "predictive.health") (codes "Map RMS to 0-100 health score")
    ∷ row UcId.pm_trend (codes "predictive.trend") (codes "EMA trend of RMS")
    ∷ row UcId.pm_reset_peak (codes "predictive.reset_peak") (codes "Clear peak hold")
    ∷ []

water_rows : List Row
water_rows =
    row UcId.water_meter (codes "water.meter") (codes "Convert pulses to flow and totalizers")
    ∷ row UcId.water_leak (codes "water.leak") (codes "Leak when flow with valve closed")
    ∷ row UcId.water_burst (codes "water.burst") (codes "Burst if flow exceeds burst_lpm")
    ∷ row UcId.water_valve_open (codes "water.valve_open") (codes "Open remote valve GPIO")
    ∷ row UcId.water_valve_close (codes "water.valve_close") (codes "Close remote valve GPIO")
    ∷ row UcId.water_tamper (codes "water.tamper") (codes "Latch magnetic/cover tamper")
    ∷ row UcId.water_billing_freeze (codes "water.billing_freeze") (codes "Freeze billing register")
    ∷ row UcId.water_set_k (codes "water.set_k") (codes "Set pulses per litre k-factor")
    ∷ row UcId.water_get_state (codes "water.get_state") (codes "Dump meter registers")
    ∷ []

vehicle_rows : List Row
vehicle_rows =
    row UcId.ev_sample (codes "ev.sample") (codes "Gateway status/energy/temp (not safety)")
    ∷ row UcId.ev_start_req (codes "ev.start") (codes "Request start — forwarded as status only")
    ∷ row UcId.ev_stop_req (codes "ev.stop") (codes "Request idle/stop status")
    ∷ row UcId.ev_reject_contactor (codes "ev.reject_contactor")
        (codes "Always deny contactor/safety commands")
    ∷ row UcId.ev_session (codes "ev.session") (codes "Allocate/clear charging session id")
    ∷ row UcId.ev_fault_latch (codes "ev.fault") (codes "Latch over-temp display fault")
    ∷ row UcId.ev_get_state (codes "ev.get_state") (codes "Dump EV gateway state")
    ∷ row UcId.auto_filter (codes "auto.filter") (codes "Accept 11-bit IDs in allow-list")
    ∷ row UcId.auto_decode (codes "auto.decode") (codes "Decode speed/rpm/coolant signals")
    ∷ row UcId.auto_reject_tx (codes "auto.reject_tx") (codes "Deny cloud CAN inject")
    ∷ row UcId.auto_bus_off (codes "auto.bus_off") (codes "Increment bus-off counter")
    ∷ row UcId.auto_dtc (codes "auto.dtc") (codes "Latch diagnostic trouble code flag")
    ∷ row UcId.auto_get_state (codes "auto.get_state") (codes "Dump CAN gateway state")
    ∷ []

field_rows : List Row
field_rows =
    row UcId.trk_beacon (codes "tracker.beacon") (codes "Update last-seen / RSSI beacon")
    ∷ row UcId.trk_motion (codes "tracker.motion") (codes "Set moving flag from IMU/GPIO")
    ∷ row UcId.trk_batt_low (codes "tracker.batt_low") (codes "Battery-low alarm")
    ∷ row UcId.trk_geofence (codes "tracker.geofence") (codes "RSSI proxy geofence")
    ∷ row UcId.trk_sleep (codes "tracker.sleep") (codes "Record sleep-interval hint")
    ∷ row UcId.agri_soil (codes "agri.soil") (codes "Soil moisture percent")
    ∷ row UcId.agri_pump_auto (codes "agri.pump_auto") (codes "Auto irrigate below threshold")
    ∷ row UcId.agri_pump_on (codes "agri.pump_on") (codes "Manual pump on")
    ∷ row UcId.agri_pump_off (codes "agri.pump_off") (codes "Manual pump off")
    ∷ row UcId.agri_schedule (codes "agri.schedule") (codes "Set irrigation window minutes")
    ∷ row UcId.agri_inhibit (codes "agri.inhibit") (codes "Inhibit pump if tank empty")
    ∷ row UcId.cold_sample (codes "cold.sample") (codes "Temperature/RH sample")
    ∷ row UcId.cold_excursion (codes "cold.excursion") (codes "Time-above-limit excursion")
    ∷ row UcId.cold_door (codes "cold.door") (codes "Door-open event")
    ∷ row UcId.cold_ack (codes "cold.ack") (codes "Acknowledge cold-chain alarm")
    ∷ row UcId.cold_datalog (codes "cold.datalog") (codes "Push last N excursion minutes")
    ∷ row UcId.robot_uart (codes "robot.uart") (codes "Ingest robot MCU UART bytes")
    ∷ row UcId.robot_heartbeat (codes "robot.heartbeat") (codes "Robot MCU heartbeat age")
    ∷ row UcId.robot_reject_motion (codes "robot.reject_motion")
        (codes "Deny cloud motion/estop drive")
    ∷ row UcId.robot_estop_report (codes "robot.estop_report") (codes "Report E-stop flag from MCU")
    ∷ row UcId.robot_battery (codes "robot.battery") (codes "Robot battery millivolts")
    ∷ []

unfoldable pub s_tab : List Row
unfolding platform_rows energy_rows industrial_rows water_rows vehicle_rows field_rows
s_tab =
    platform_rows
    ++ (energy_rows ++ (industrial_rows ++ (water_rows ++ (vehicle_rows ++ field_rows))))

-- `find_id`: the first row with this id.
unfoldable pub find_row : List Row → UcId → Option Row
find_row [] id = none
find_row (r ∷ rows) id = if uc_num r.id == uc_num id then some r else find_row rows id

unfoldable pub find_id : UcId → Option Row
unfolding find_row
find_id id = find_row s_tab id

unfoldable pub uc_count : ℕ
uc_count = length s_tab

unfoldable pub uc_name : UcId → Text
uc_name id = elim (find_id id) [ none ↦ codes "invalid" | some r ↦ r.name ]

unfoldable pub uc_summary : UcId → Text
uc_summary id = elim (find_id id) [ none ↦ [] | some r ↦ r.summary ]

unfoldable pub find_name : List Row → Text → UcId
find_name [] name = invalid
find_name (r ∷ rows) name = if text_eq r.name name then r.id else find_name rows name

-- The result for NULL is that of no name.
unfoldable pub id_from_name : Option Text → UcId
unfolding find_name
id_from_name none = invalid
id_from_name (some name) = find_name s_tab name
