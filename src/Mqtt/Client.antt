-- ===== src/Mqtt/Client.antt =====
-- components/iot_mqtt/src/iot_mqtt.c: the connection of the ESP build, whose client is that of
-- ESP-IDF. What ESP-IDF returns is an argument.
pub mod Session
use esp32_iot_products.CText.{Text, codes}
use esp32_iot_products.Mqtt.{build_topic, command_of_data}
use esp32_iot_products.Core.Config.{RuntimeCfg}
use esp32_iot_products.Core.Err.{Err, ok, no_mem, invalid_state, EspCodes, err_from_idf}
use esp32_iot_products.Core.Types.{topic_len, CommandMsg, TelemetryMsg}
use esp32_iot_products.Prelude.Int.{ℤ, pos, ltb_ℤ}
use esp32_iot_products.Rtos.Event.{Event, event_set, event_clear, evt_mqtt_up}
use esp32_iot_products.Prelude.{
  none, ℕ, not, ◌||◌, [], Bool, take, false, ◌∷◌, Option, true, List, some, if◌then◌else◌,
}

-- `iot_mqtt_state_t`
pub data MqttState : Type 0 where
  mqtt_down mqtt_connecting mqtt_up mqtt_error : MqttState

-- `s_state`, `s_dev`, whether `s_client` is not NULL, `s_run`, and the event group of the tasks'
-- context; `topics` are those that the client was asked to subscribe, the last one first.
pub record Client : Type 0 where
  pub state : MqttState
  pub dev : Text
  pub client : Bool
  pub run : Bool
  pub system_evt : Event
  pub topics : List Text

-- The events of ESP-IDF. Data are the bytes, which may be NULL, and their number.
pub data MqttEvent : Type 0 where
  connected_event disconnected_event error_event other_mqtt_event : MqttEvent
  data_event : Option (List ℕ) → ℕ → MqttEvent

-- `iot_mqtt_build_topic(t, sizeof(t), s_dev, suffix)`
pub topic : Text → Text → Text
topic dev suffix = build_topic [] topic_len (some dev) (some suffix)

pub subscribe : Text → Client → Client
subscribe suffix c = record c { topics = topic c.dev suffix ∷ c.topics }

-- `mqtt_event`: the command that it puts on `command_q`, if any, and the new state.
unfoldable pub mqtt_event : MqttEvent → Client → Option CommandMsg × Client
mqtt_event connected_event c =
    let up = record c { state = mqtt_up } in
    let heard =
      subscribe (codes "ota") (subscribe (codes "config") (subscribe (codes "command") up)) in
    (none, record heard { system_evt = event_set heard.system_evt evt_mqtt_up })
mqtt_event disconnected_event c =
    (none, record c { state = mqtt_connecting; system_evt = event_clear c.system_evt evt_mqtt_up })
mqtt_event (data_event bytes len) c = (some (command_of_data bytes len), c)
mqtt_event error_event c = (none, record c { state = mqtt_error })
mqtt_event other_mqtt_event c = (none, c)

unfoldable pub mqtt_init : Client → Err × Client
mqtt_init c = (ok, record c { state = mqtt_down })

-- What the calls of others return that `iot_mqtt_start` makes: whether there is a client, the code of
-- its start, and that of creating the task.
pub record MqttCalls : Type 0 where
  pub has_client : Bool
  pub start_code : ℤ
  pub task : Err

module _ (k : EspCodes) (calls : MqttCalls) where
  -- The ESP build; the configuration is not NULL.
  pub mqtt_start : RuntimeCfg → Client → Err × Client
  mqtt_start cfg c =
      let named = record c { dev = cfg.device_id; client = calls.has_client } in
      let trying = record named { state = mqtt_connecting } in
      if not calls.has_client then (no_mem, named) else elim (err_from_idf k calls.start_code) [
        | ok ↦ (calls.task, record trying { run = true })
        | e ↦ (e, trying)
      ]

pub mqtt_stop : Client → Err × Client
mqtt_stop c = (ok, record c { run = false; client = false; state = mqtt_down })

pub is_up : MqttState → Bool
is_up mqtt_up = true
is_up _ = false

-- `iot_mqtt_publish_telemetry` on the static state that it reads: whether there is a client, whether
-- the connection is up, and the name of the device.
hand_to_broker : ℤ → TelemetryMsg → Bool → Bool → Text → Err × Option (Text × List ℕ)
hand_to_broker mid msg client up dev = if not client || not up then (invalid_state, none) else (
  if ltb_ℤ mid (pos 0) then Err.fail else ok,
  some (topic dev (codes "telemetry"), take msg.payload_len msg.payload),
)

-- The ESP build: the code, and the topic and the payload that are handed to ESP-IDF, whose answer is
-- `mid`. The message is not NULL.
pub mqtt_publish_telemetry : ℤ → TelemetryMsg → Client → Err × Option (Text × List ℕ)
mqtt_publish_telemetry mid msg c = hand_to_broker mid msg c.client (is_up c.state) c.dev

-- The host build of `iot_mqtt_start`; `task` is what creating the task returns.
unfoldable pub mqtt_start_host : Err → RuntimeCfg → Client → Err × Client
mqtt_start_host task cfg c = (task, record c { dev = cfg.device_id; state = mqtt_up; run = true })
