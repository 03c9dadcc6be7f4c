-- ===== src/UseCase/Types.antt =====
-- The types of components/iot_usecases/include/iot_uc.h, and the two writers of a reply of
-- src/iot_uc.c. Arrays are functions of the index: every index in the sources is a constant below
-- the length, 8.
use esp32_iot_products.Prelude.{ℕ, Bool, false, Option, none, [], ◌++◌, ◌==◌, if◌then◌else◌}
use esp32_iot_products.Prelude.Int.{ℤ, pos}
use esp32_iot_products.CText.{Text, codes, snprintf, show_u, show_d}
use esp32_iot_products.Core.Err.{Err, ok, err_code}
use esp32_iot_products.Core.Float.{Float, whole}
use esp32_iot_products.Core.Types.{json_telemetry_len}

pub data UcId : Type 0 where
  invalid : UcId
  plt_factory_reset plt_set_sample_ms plt_get_diag plt_provision plt_ota plt_identity : UcId
  plt_set_cloud plt_set_log_level plt_export_topics plt_wifi_backoff_policy : UcId
  plt_cmd_schema plt_mark_ota_valid plt_shutdown : UcId
  energy_measure energy_accum energy_over_power energy_over_voltage : UcId
  energy_under_voltage energy_over_current energy_set_limits energy_calibrate : UcId
  energy_reset_daily energy_pf energy_get_state energy_led_alarm : UcId
  ind_sample ind_state_machine ind_set_limits ind_ack_alarm ind_hours_tick ind_pulse : UcId
  pm_features pm_health pm_trend pm_reset_peak : UcId
  water_meter water_leak water_burst water_valve_open water_valve_close water_tamper : UcId
  water_billing_freeze water_set_k water_get_state : UcId
  ev_sample ev_start_req ev_stop_req ev_reject_contactor ev_session ev_fault_latch : UcId
  ev_get_state : UcId
  auto_filter auto_decode auto_reject_tx auto_bus_off auto_dtc auto_get_state : UcId
  trk_beacon trk_motion trk_batt_low trk_geofence trk_sleep : UcId
  agri_soil agri_pump_auto agri_pump_on agri_pump_off agri_schedule agri_inhibit : UcId
  cold_sample cold_excursion cold_door cold_ack cold_datalog : UcId
  robot_uart robot_heartbeat robot_reject_motion robot_estop_report robot_battery : UcId

-- The value of the enumerator.
unfoldable pub uc_num : UcId → ℕ
uc_num invalid = 0
uc_num plt_factory_reset = 1
uc_num plt_set_sample_ms = 2
uc_num plt_get_diag = 3
uc_num plt_provision = 4
uc_num plt_ota = 5
uc_num plt_identity = 6
uc_num plt_set_cloud = 7
uc_num plt_set_log_level = 8
uc_num plt_export_topics = 9
uc_num plt_wifi_backoff_policy = 10
uc_num plt_cmd_schema = 11
uc_num plt_mark_ota_valid = 12
uc_num plt_shutdown = 13
uc_num energy_measure = 14
uc_num energy_accum = 15
uc_num energy_over_power = 16
uc_num energy_over_voltage = 17
uc_num energy_under_voltage = 18
uc_num energy_over_current = 19
uc_num energy_set_limits = 20
uc_num energy_calibrate = 21
uc_num energy_reset_daily = 22
uc_num energy_pf = 23
uc_num energy_get_state = 24
uc_num energy_led_alarm = 25
uc_num ind_sample = 26
uc_num ind_state_machine = 27
uc_num ind_set_limits = 28
uc_num ind_ack_alarm = 29
uc_num ind_hours_tick = 30
uc_num ind_pulse = 31
uc_num pm_features = 32
uc_num pm_health = 33
uc_num pm_trend = 34
uc_num pm_reset_peak = 35
uc_num water_meter = 36
uc_num water_leak = 37
uc_num water_burst = 38
uc_num water_valve_open = 39
uc_num water_valve_close = 40
uc_num water_tamper = 41
uc_num water_billing_freeze = 42
uc_num water_set_k = 43
uc_num water_get_state = 44
uc_num ev_sample = 45
uc_num ev_start_req = 46
uc_num ev_stop_req = 47
uc_num ev_reject_contactor = 48
uc_num ev_session = 49
uc_num ev_fault_latch = 50
uc_num ev_get_state = 51
uc_num auto_filter = 52
uc_num auto_decode = 53
uc_num auto_reject_tx = 54
uc_num auto_bus_off = 55
uc_num auto_dtc = 56
uc_num auto_get_state = 57
uc_num trk_beacon = 58
uc_num trk_motion = 59
uc_num trk_batt_low = 60
uc_num trk_geofence = 61
uc_num trk_sleep = 62
uc_num agri_soil = 63
uc_num agri_pump_auto = 64
uc_num agri_pump_on = 65
uc_num agri_pump_off = 66
uc_num agri_schedule = 67
uc_num agri_inhibit = 68
uc_num cold_sample = 69
uc_num cold_excursion = 70
uc_num cold_door = 71
uc_num cold_ack = 72
uc_num cold_datalog = 73
uc_num robot_uart = 74
uc_num robot_heartbeat = 75
uc_num robot_reject_motion = 76
uc_num robot_estop_report = 77
uc_num robot_battery = 78

-- `iot_uc_in_t`. A `char` array is the text that it holds; `json` is a pointer that may be NULL.
pub record In (F : Type 0) : Type 0 where
  pub json : Option Text
  pub json_len : ℕ
  pub f : ℕ → F
  pub i : ℕ → ℤ
  pub u : ℕ → ℕ
  pub b : ℕ → Bool
  pub s0 : Text
  pub s1 : Text

-- `iot_uc_out_t`
pub record Out (F : Type 0) : Type 0 where
  pub err : Err
  pub id : UcId
  pub alarm : Bool
  pub f : ℕ → F
  pub i : ℕ → ℤ
  pub u : ℕ → ℕ
  pub json : Text

-- `a[k] = v`
abbrev pub set_at {ℓ} : {A : Type ℓ} → (ℕ → A) → ℕ → A → ℕ → A
set_at a k v j = if j == k then v else a j

-- `iot_uc_fn_t`, with the static state of its file: the value returned, what it leaves in `*out`,
-- and the new state.
abbrev pub Handler : Type 0 → Type 0 → Type 0
Handler F S = In F → Out F → S → Err × Out F × S

-- `%d` of a bool
unfoldable pub show_b : Bool → Text
show_b b = if b then codes "1" else codes "0"

module _ {F : Type 0} ⦃fl : Float F⦄ where
  -- `memset(&in, 0, sizeof(in))`, and `memset(out, 0, sizeof(*out))`
  unfoldable pub zero_in : In F
  zero_in = record {
    json = none;
    json_len = 0;
    f = λ _. whole 0;
    i = λ _. pos 0;
    u = λ _. 0;
    b = λ _. false;
    s0 = [];
    s1 = [];
  }

  unfoldable pub zero_out : Out F
  zero_out = record {
    err = ok;
    id = invalid;
    alarm = false;
    f = λ _. whole 0;
    i = λ _. pos 0;
    u = λ _. 0;
    json = [];
  }

module _ {F : Type 0} where
  -- The alarm flag and the arrays keep what they held.
  unfoldable pub out_ok : Out F → UcId → Text → Out F
  out_ok out id json = record out { err = ok; id = id; json = snprintf json_telemetry_len json }

  unfoldable pub out_err : Out F → UcId → Err → Out F
  out_err out id e = record out {
    err = e;
    id = id;
    json = snprintf json_telemetry_len (
        codes "{\"uc\":"
        ++ show_u (uc_num id)
        ++ codes ",\"err\":"
        ++ show_d (err_code e)
        ++ codes "}");
  }

-- A property of the static state that a handler keeps, whatever the command and the old reply.
abbrev pub Preserves : {F S : Type 0} → (S → Type 0) → Handler F S → Type 0
Preserves {F} {S} P h = (inp : In F) (out : Out F) (s : S) → P s → P (h inp out s).2
