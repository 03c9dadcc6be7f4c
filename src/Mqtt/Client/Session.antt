-- ===== src/Mqtt/Client/Session.antt =====
-- What a sequence of events does to the connection of components/iot_mqtt/src/iot_mqtt.c.
use esp32_iot_products.CText.{codes, Text}
use esp32_iot_products.Core.Err.{Err, ok, invalid_state}
use esp32_iot_products.Core.Types.{TelemetryMsg}
use esp32_iot_products.Mqtt.Client.{
  Client, MqttEvent, connected_event, disconnected_event, error_event, other_mqtt_event, data_event,
  topic, mqtt_event, mqtt_publish_telemetry, subscribe, is_up, hand_to_broker,
}
use esp32_iot_products.Prelude.Int.{ℤ, pos, ltb_ℤ}
use esp32_iot_products.Prelude.{
  some, refl, ◌∷◌, take, if◌then◌else◌, none, false, [], List, true, ◌≡◌, Bool, ap, ◌∙◌,
}
use mathlib.Core.Path.{ap₂}

-- The events in order; the commands that they bring are left aside.
pub after_mqtt : List MqttEvent → Client → Client
after_mqtt [] c = c
after_mqtt (e ∷ es) c = after_mqtt es (mqtt_event e c).1

-- Whether the connection is up after the events: the last one that tells decides.
pub linked : List MqttEvent → Bool → Bool
linked [] up = up
linked (connected_event ∷ es) up = linked es true
linked (disconnected_event ∷ es) up = linked es false
linked (error_event ∷ es) up = linked es false
linked (_ ∷ es) up = linked es up

after_mqtt-linked :
    (es : List MqttEvent) (c : Client)
    → (is_up (after_mqtt es c).state ≡ linked es (is_up c.state))
      × ((after_mqtt es c).client ≡ c.client)
      × ((after_mqtt es c).dev ≡ c.dev)
unfolding after_mqtt linked mqtt_event subscribe is_up
after_mqtt-linked [] c = (refl, refl, refl)
after_mqtt-linked (connected_event ∷ es) c = after_mqtt-linked es _
after_mqtt-linked (disconnected_event ∷ es) c = after_mqtt-linked es _
after_mqtt-linked (error_event ∷ es) c = after_mqtt-linked es _
after_mqtt-linked (other_mqtt_event ∷ es) c = after_mqtt-linked es c
after_mqtt-linked (data_event bytes len ∷ es) c = after_mqtt-linked es c

hand_to_broker-up :
    (mid : ℤ) (msg : TelemetryMsg) (up : Bool) (dev : Text)
    → hand_to_broker mid msg true up dev ≡ (
        if up
        then (
          if ltb_ℤ mid (pos 0) then Err.fail else ok,
          some (topic dev (codes "telemetry"), take msg.payload_len msg.payload),
        )
        else (invalid_state, none))
unfolding hand_to_broker
hand_to_broker-up mid msg true dev = refl
hand_to_broker-up mid msg false dev = refl

-- With a client, a message is handed to it exactly when the last of the events that tell of the
-- connection is that it was made (or it was up at first, and none tells); it goes to the telemetry
-- topic of the device, with the bytes that count. Otherwise nothing is handed over, and the code is
-- IOT_ERR_INVALID_STATE.
pub mqtt_publish_telemetry-linked :
    (mid : ℤ) (msg : TelemetryMsg) (es : List MqttEvent) (c : Client)
    → c.client ≡ true
    → mqtt_publish_telemetry mid msg (after_mqtt es c) ≡ (
        if linked es (is_up c.state)
        then (
          if ltb_ℤ mid (pos 0) then Err.fail else ok,
          some (topic c.dev (codes "telemetry"), take msg.payload_len msg.payload),
        )
        else (invalid_state, none))
unfolding mqtt_publish_telemetry
mqtt_publish_telemetry-linked mid msg es c h =
    let (up, has, named) = after_mqtt-linked es c in
    let d = after_mqtt es c in
    ap (λ b. hand_to_broker mid msg b (is_up d.state) d.dev) (has ∙ h)
    ∙ ap₂ (hand_to_broker mid msg true) up named
    ∙ hand_to_broker-up mid msg (linked es (is_up c.state)) c.dev
