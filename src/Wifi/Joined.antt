-- ===== src/Wifi/Joined.antt =====
-- What iot_wifi_start of components/iot_wifi/src/iot_wifi.c, built for the host, tells other tasks.
use esp32_iot_products.Wifi.{Wifi, set_state, wifi_init, wifi_start, is_ip_ready}
use esp32_iot_products.CText.{Text}
use esp32_iot_products.Rtos.Event.{event_set, evt_wifi_ip}
use esp32_iot_products.Prelude.{arith, length, ◌≡◌, ◌==◌, Option, ◌<◌, refl, false, some}

-- With the name of a network, the event group says that there is an address.
pub wifi_start-joined :
    (ssid : Text) (pass : Option Text) (w : Wifi)
    → 0 < length ssid
    → (wifi_start (some ssid) pass w).1.system_evt ≡ event_set w.system_evt evt_wifi_ip
unfolding wifi_start set_state is_ip_ready
wifi_start-joined ssid pass w h =
    let named : (length ssid == 0) ≡ false = ground arith in rw named refl

pub wifi_init-event : (w : Wifi) → (wifi_init w).system_evt ≡ w.system_evt
unfolding wifi_init
wifi_init-event w = refl
