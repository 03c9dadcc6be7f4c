-- ===== src/Wifi/Station.antt =====
-- components/iot_wifi/src/iot_wifi.c, built for the ESP: initialising, starting and the status. What
-- ESP-IDF returns are arguments; an `ESP_ERROR_CHECK` that fails restarts the device.
pub mod Flags
use esp32_iot_products.CText.{Text}
use esp32_iot_products.Wifi.{WifiState, disconnected, connecting, error, Wifi, set_state}
use esp32_iot_products.Core.Err.{Err, ok, invalid_arg, EspCodes, err_from_idf}
use esp32_iot_products.Prelude.Int.{ℤ, pos, eqb_ℤ}
use esp32_iot_products.Prelude.{
  not, if◌then◌else◌, take, Bool, ℕ, some, none, [], Option, length, ◌==◌,
}

-- `iot_wifi_status_t`
pub record WifiStatus : Type 0 where
  pub ip : Text
  pub rssi : ℤ
  pub retry_count : ℕ
  pub state : WifiState

-- `heard` is the signal of the access point, if there is one; `rssi` is `s_status.rssi`, and the last
-- part what it becomes. `out` tells that the pointer is not NULL.
pub wifi_get_status : Bool → Option ℤ → ℤ → Wifi → Err × Option WifiStatus × ℤ
wifi_get_status out heard rssi w =
    let level : ℤ = elim heard [ none ↦ rssi | some z ↦ z ] in
    if not out then (invalid_arg, none, rssi) else (
      ok,
      some (record { ip = w.ip; rssi = level; retry_count = w.retry_count; state = w.status }),
      level,
    )

module _ (k : EspCodes) where
  -- `created` is what making the mutex returns, `inited` what `esp_wifi_init` returns.
  pub wifi_init_esp : Err → ℤ → Wifi → Err × Wifi
  wifi_init_esp created inited w =
      let w' = record w { status = disconnected; retry_count = 0; ip = [] } in
      elim created [
        | ok ↦
            if eqb_ℤ inited (pos 0)
            then (ok, record w' { state = disconnected })
            else (err_from_idf k inited, w')
        | e ↦ (e, w)
      ]

  -- `configured` and `started` are what `esp_wifi_set_config` and `esp_wifi_start` return.
  pub wifi_start_esp : ℤ → ℤ → Option Text → Option Text → Wifi → Err × Wifi
  wifi_start_esp configured started none pass w = (invalid_arg, w)
  wifi_start_esp configured started (some ssid) pass w =
      let w₁ = record w {
        ssid = take 32 ssid;
        pass = elim pass [ none ↦ [] | some p ↦ take 64 p ];
      } in
      if length ssid == 0
      then (invalid_arg, w)
      else (if eqb_ℤ configured (pos 0)
          then (err_from_idf k started, set_state connecting w₁)
          else (err_from_idf k configured, set_state error w₁))
