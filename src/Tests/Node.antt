-- ===== src/Tests/Node.antt =====
-- The profiles, the connection to the broker, Bluetooth and the start of a node.
use esp32_iot_products.Main.{App, HostCalls, online, app_main}
use esp32_iot_products.Wifi.{WifiState}
use esp32_iot_products.Tests.{start_world}
use esp32_iot_products.CText.{Text, codes, starts_with, strstr, snprintf}
use esp32_iot_products.Ble.{ble_advertising, Ble, read_value, ble_notify_sensor, command_of_write}
use esp32_iot_products.Provision.{contains, provision_is_complete}
use esp32_iot_products.Profiles.{profile_agri, profile_robotics, profile_energy}
use esp32_iot_products.Tests.Tasks.{commands, empty_of-QueueSane, esp_codes, start_node, field_desk}
use esp32_iot_products.Tests.Commands.{
  measure, measure_json, NoNul-measure_json, measure_json-short,
}
use esp32_iot_products.UseCase.Json.{pattern_of, has_key}
use esp32_iot_products.UseCase.Run.{fn_of, call, json_input, World}
use esp32_iot_products.UseCase.Types.{UcId, zero_out}
use esp32_iot_products.Services.Payload.{NoNul, NoNul-no_nul, no_nul}
use esp32_iot_products.Main.Connect.{app_main_lem}
use esp32_iot_products.Core.Err.{Err, ok, no_mem, invalid_state, denied}
use esp32_iot_products.Core.Types.{CommandMsg, zero_command, text_of, json_small_len}
use esp32_iot_products.Core.Float.Milli.{Milli, milli_float}
use esp32_iot_products.Mqtt.Client.{
  mqtt_down, mqtt_up, Client, MqttEvent, connected_event, error_event, other_mqtt_event, data_event,
  topic, mqtt_event, is_up, mqtt_publish_telemetry,
}
use esp32_iot_products.Mqtt.Client.Session.{after_mqtt, linked, mqtt_publish_telemetry-linked}
use esp32_iot_products.Ble.Sensor.{read_value-ble_notify_sensor}
use esp32_iot_products.Prelude.Int.{pos, ltb_ℤ}
use esp32_iot_products.Profiles.Commands.{cmd_hook}
use esp32_iot_products.Profiles.Commands.EndToEnd.{
  arrivals, device_hook, mqtt_event-runs, keyed_first,
}
use esp32_iot_products.Profiles.Commands.Legacy.{legacy_uc, cmd_hook-refuses}
use esp32_iot_products.Rtos.Loops.{blank_message}
use esp32_iot_products.Rtos.Commands.{looks, handles, desk_acts}
use esp32_iot_products.Rtos.EventWait.{wait_loop}
use esp32_iot_products.Rtos.Start.{Slot, Start, tasks_start}
use esp32_iot_products.Rtos.EventWait.Rounds.{first_ready, wait_loop_ends}
use esp32_iot_products.Rtos.Start.Order.{
  first_failure, is_ok, creation_order, code_of, tasks_start_lem,
}
use esp32_iot_products.Prelude.{
  ◌+◌, ◌≡◌, ◌∷◌, if◌then◌else◌, replicate, true, refl, false, ℕ, ◌++◌, arith, none, map, List, [],
  ◌/◌, length, take, some, ◌<◌, ◌==◌,
}
use esp32_iot_products.UseCase.Run.Rejects.{refuses}
use esp32_iot_products.UseCase.Json.Strings.{NoQuote, entry}
use esp32_iot_products.Services.{handle_command}
use esp32_iot_products.Services.Commission.{handle_command-commissions}
use esp32_iot_products.Ota.{OtaState}
use esp32_iot_products.Ota.Download.{evt_ota_busy, OtaCalls, restarted, OtaTask, ota_task}
use esp32_iot_products.Ota.Download.Outcome.{Answers, ota_task_lem}
use esp32_iot_products.Rtos.Event.{event_set}
use esp32_iot_products.Core.Config.{defaults}

abbrev move_json : Text
move_json = 109 ∷ 111 ∷ 118 ∷ 101 ∷ []

-- The payload `move`.
abbrev move_cmd : CommandMsg
move_cmd = record {
  seq = 1;
  opcode = 0x4d51;
  payload_len = 4;
  payload = 109 ∷ 111 ∷ 118 ∷ 101 ∷ 0 ∷ [];
}

move_cmd-text : text_of move_cmd.payload ≡ some move_json
unfolding text_of
move_cmd-text = refl

move-refused : legacy_uc profile_robotics move_json ≡ some UcId.robot_reject_motion
unfolding legacy_uc contains strstr starts_with codes
move-refused = refl

cmd_hook-refuses_example :
    cmd_hook profile_robotics move_cmd zero_out start_world
    ≡ some (denied, record start_world { init = true })
unfolding refuses
cmd_hook-refuses_example =
    cmd_hook-refuses profile_robotics move_json move_cmd zero_out start_world
      UcId.robot_reject_motion move_cmd-text move-refused refl

brace_digits-NoNul : NoNul (49 ∷ 53 ∷ 125 ∷ [])
unfolding no_nul
brace_digits-NoNul = NoNul-no_nul (49 ∷ 53 ∷ 125 ∷ []) refl

abbrev off_line : Client
off_line = record {
  state = mqtt_down;
  dev = 110 ∷ 49 ∷ [];
  client = true;
  run = true;
  system_evt = some 0;
  topics = [];
}

abbrev lost_and_found : List MqttEvent
lost_and_found = connected_event ∷ error_event ∷ other_mqtt_event ∷ connected_event ∷ []

mqtt_publish_telemetry-linked_example :
    mqtt_publish_telemetry (pos 7) (blank_message 1 200) (after_mqtt lost_and_found off_line) ≡ (
      if linked lost_and_found (is_up mqtt_down)
      then (
        if ltb_ℤ (pos 7) (pos 0) then Err.fail else ok,
        some (topic (110 ∷ 49 ∷ []) (codes "telemetry"), take 0 (replicate 768 0)),
      )
      else (invalid_state, none))
unfolding blank_message
mqtt_publish_telemetry-linked_example =
    mqtt_publish_telemetry-linked (pos 7) (blank_message 1 200) lost_and_found off_line refl

mqtt_event-runs_example :
    let sent = (mqtt_event (data_event (some measure_json) (length measure_json)) off_line).0 in
    let r =
      call
        (fn_of UcId.energy_measure)
        UcId.energy_measure
        (json_input measure_json (length measure_json))
        zero_out
        (record start_world { init = true }) in
    (desk_acts commands
      (some (device_hook profile_energy zero_out))
      (arrivals sent ++ (looks ∷ handles ∷ []))
      field_desk).1.device
    ≡ some (r.2)
unfolding keyed_first
mqtt_event-runs_example =
    mqtt_event-runs commands profile_energy UcId.energy_measure measure zero_out start_world
      off_line field_desk refl NoNul-measure_json measure_json-short
      (empty_of-QueueSane 8 zero_command (ground arith)) refl refl refl

abbrev beacon : Ble
beacon = record {
  state = ble_advertising;
  connected = false;
  name = [];
  cache = replicate 64 0;
  sensor_len = 0;
  conn = 0;
  system_evt = some 0;
}

read_value-ble_notify_sensor_example :
    read_value 0xff02 false (ble_notify_sensor true (pos 0) (some (replicate 70 9)) 70 beacon).1
    ≡ take 64 (replicate 70 9)
read_value-ble_notify_sensor_example =
    read_value-ble_notify_sensor true false (pos 0) (replicate 70 9) beacon (ground arith)

-- The bit comes in the third round.
wait_loop_ends_example :
    wait_loop 1 20 false (λ i. i / 2) 9 0 0 ≡ first_ready 1 20 false (λ i. i / 2) (20 / 5 + 1) 0
wait_loop_ends_example = wait_loop_ends 1 20 false (λ i. i / 2) 9 (ground arith) (ground arith)

abbrev unstarted : Start
unstarted = record { ctx = λ i. none; started = false; gives = 0 }

abbrev all_made : Slot → Err × ℕ
all_made x = (ok, 5)

abbrev none_made : Slot → Err × ℕ
none_made x = (no_mem, 0)

tasks_start_lem_example :
    let (e, s') = tasks_start none_made unstarted in
    (e ≡ first_failure (map (code_of none_made) creation_order)) × (s'.started ≡ is_ok e)
tasks_start_lem_example = tasks_start_lem none_made unstarted refl

abbrev host_calls : HostCalls
host_calls = record {
  drivers = record {
    gpio_mutex = ok;
    wdt_code = pos 0;
    uart_mutex = ok;
    uart_install = pos 0;
    uart_calls = [];
  };
  made = all_made;
  profile_mutexes = record { adc_mutex = ok; i2c_mutex = ok; spi_mutex = ok; uart_mutex = ok };
  pump_task = ok;
}

abbrev powered_on : App Milli
powered_on = record {
  node = start_node;
  wdt = record { init = false };
  start = unstarted;
  wifi = record {
    state = WifiState.disconnected;
    status = WifiState.disconnected;
    retry_count = 0;
    backoff_ms = 1000;
    ip = [];
    ssid = [];
    pass = [];
    system_evt = none;
  };
  ble = beacon;
  mqtt = off_line;
}

-- The name `home`.
abbrev home : Text
home = 104 ∷ 111 ∷ 109 ∷ 101 ∷ []

home-NoQuote : NoQuote home
home-NoQuote = (ground arith, (ground arith, (ground arith, (ground arith, _))))

abbrev at_home : App Milli
at_home =
    let n = powered_on.node in
    let σ = n.world in
    let p = σ.plat in
    record powered_on {
      node = record n {
        world = record σ {
          plat = record p {
            config = record {
              cfg = record defaults { wifi_ssid = home; provisioned = true };
              ready = true;
            };
          };
        };
      };
    }

app_main_lem_example :
    let (ending, b) = app_main esp_codes host_calls profile_agri at_home in
    (ending ≡ online) × (b.mqtt.state ≡ mqtt_up) × (b.start.started ≡ true)
app_main_lem_example = app_main_lem esp_codes host_calls profile_agri at_home refl (λ x. refl)

-- `{"ssid":"home"}`
abbrev home_json : Text
home_json = entry (codes "ssid") home (codes "}")

NoNul-home_json : NoNul home_json
unfolding codes no_nul
NoNul-home_json = NoNul-no_nul home_json refl

home_json-short : length home_json < json_small_len
unfolding codes
home_json-short = ground arith

has_key-home_json : has_key (some home_json) (codes "uc") ≡ false
unfolding has_key pattern_of snprintf strstr starts_with codes
has_key-home_json = refl

handle_command-commissions_example :
    (σ' : World Milli) × (handle_command
        (some (command_of_write 0xff01 home_json))
        zero_out
        start_world
      ≡ some (ok, σ'))
    × (σ'.plat.config.cfg.wifi_ssid ≡ home)
    × (provision_is_complete σ'.plat.config ≡ true)
handle_command-commissions_example =
    handle_command-commissions home (codes "}") zero_out start_world NoNul-home_json home_json-short
      has_key-home_json home-NoQuote (ground arith) (ground arith) refl

-- A download of two rounds that is good.
abbrev good_download : OtaCalls
good_download = record {
  in_progress = pos 0x9001;
  begin = pos 0;
  perform = λ i. if i == 0 then pos 0x9001 else pos 0;
  complete = true;
  finish = pos 0;
}

abbrev update_task : OtaTask
update_task = record {
  ota = record { state = OtaState.idle; url = codes "https://a" };
  system_evt = some 0;
}

second-Answers : Answers good_download 1
second-Answers = (λ i h. let first : (i == 0) ≡ true = ground (arith, h) in rw first refl, refl)

ota_task_lem_example :
    let (e, d) = ota_task good_download 2 update_task in
    (e ≡ restarted)
    × (d.ota.state ≡ OtaState.reboot)
    × (d.ota.url ≡ update_task.ota.url)
    × (d.system_evt ≡ event_set update_task.system_evt evt_ota_busy)
ota_task_lem_example = ota_task_lem good_download 1 2 update_task second-Answers (ground arith)
