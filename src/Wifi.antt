-- ===== src/Wifi.antt =====
-- components/iot_wifi/src/iot_wifi.c: the connection states, with the event handler of the ESP build.
pub mod Backoff
pub mod Joined
pub mod Station
use Prim.Native.Nat.{bit_or}
use esp32_iot_products.CText.{Text, codes, snprintf}
use esp32_iot_products.Core.Err.{Err, ok, invalid_arg}
use esp32_iot_products.Prelude.Words.{u32_mod, add32}
use esp32_iot_products.Rtos.Event.{Event, event_set, event_clear, evt_wifi_ip, evt_mqtt_up}
use esp32_iot_products.Prelude.{
  false, take, Option, ℕ, [], if◌then◌else◌, ◌==◌, none, length, Bool, true, ◌*◌, ◌%◌, some, ltb,
}

-- `iot_wifi_state_t`
pub data WifiState : Type 0 where
  disconnected connecting connected ip_ready reconnecting error : WifiState

-- The static state, and of the tasks' context the event group. `status` is `s_status.state`.
pub record Wifi : Type 0 where
  pub state : WifiState
  pub status : WifiState
  pub retry_count : ℕ
  pub backoff_ms : ℕ
  pub ip : Text
  pub ssid : Text
  pub pass : Text
  pub system_evt : Event

-- What the two bits of the group tell other tasks.
down_bits : ℕ
down_bits = bit_or evt_wifi_ip evt_mqtt_up

is_ip_ready : WifiState → Bool
is_ip_ready ip_ready = true
is_ip_ready _ = false

pub set_state : WifiState → Wifi → Wifi
set_state st w = record w {
  state = st;
  status = st;
  system_evt =
      if is_ip_ready st
      then event_set w.system_evt evt_wifi_ip
      else event_clear w.system_evt down_bits;
}

-- The events of ESP-IDF that the handler looks at; `got_ip` carries the address as it is printed.
pub data WifiEvent : Type 0 where
  sta_start sta_connected sta_disconnected other_event : WifiEvent
  got_ip : Text → WifiEvent

-- `wifi_event`. The calls of ESP-IDF in it and the pause of at most 50 ms change no state here.
pub wifi_event : WifiEvent → Wifi → Wifi
wifi_event sta_start w = set_state connecting w
wifi_event sta_connected w = let w' = set_state connected w in record w' { backoff_ms = 1000 }
wifi_event sta_disconnected w =
    let w₁ = set_state reconnecting (record w { retry_count = add32 w.retry_count 1 }) in
    let w₂ = record w₁ {
      backoff_ms = if ltb w₁.backoff_ms 30000 then w₁.backoff_ms * 2 % u32_mod else w₁.backoff_ms;
    } in
    set_state connecting w₂
wifi_event other_event w = w
wifi_event (got_ip ip) w = set_state ip_ready (record w { ip = snprintf 16 ip })

-- The end of `iot_wifi_init`, once the mutex is made. `backoff_ms` keeps its value.
pub wifi_init : Wifi → Wifi
wifi_init w = record w { status = disconnected; retry_count = 0; ip = []; state = disconnected }

-- The host build of `iot_wifi_start`.
pub wifi_start : Option Text → Option Text → Wifi → Err × Wifi
wifi_start none pass w = (invalid_arg, w)
wifi_start (some ssid) pass w =
    let w₁ = record w {
      ssid = take 32 ssid;
      pass = elim pass [ none ↦ [] | some p ↦ take 64 p ];
    } in
    let w₂ = set_state ip_ready w₁ in
    if length ssid == 0 then (invalid_arg, w) else (ok, record w₂ { ip = codes "127.0.0.1" })

pub wifi_stop : Wifi → Err × Wifi
wifi_stop w = (ok, set_state disconnected w)
