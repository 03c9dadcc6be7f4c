-- ===== src/Wifi/Backoff.antt =====
-- What the event handler of components/iot_wifi/src/iot_wifi.c keeps over any sequence of events.
-- The handler over a list of events, oldest first.
use esp32_iot_products.Wifi.{
  Wifi, set_state, WifiEvent, sta_disconnected, wifi_event, sta_start, sta_connected, other_event,
  got_ip,
}
use esp32_iot_products.Prelude.{
  zero, ◌∷◌, arith, ℕ, [], if◌then◌else◌, refl, List, ◌^◌, ◌≡◌, suc, ◌*◌, ◌%◌, ltb, ◌⊎◌,
}

pub after_events : List WifiEvent → Wifi → Wifi
after_events [] w = w
after_events (e ∷ es) w = after_events es (wifi_event e w)

-- The backoffs that doubling from 1 s can reach, in milliseconds.
abbrev pub IsBackoff : ℕ → Type 0
IsBackoff b = (b ≡ 1000) ⊎ (b ≡ 2000) ⊎ (b ≡ 4000) ⊎ (b ≡ 8000) ⊎ (b ≡ 16000) ⊎ (b ≡ 32000)

-- The published state is the internal one, and the backoff is one of the six.
pub record WifiSane (w : Wifi) : Type 0 where
  pub published : w.status ≡ w.state
  pub backoff : IsBackoff w.backoff_ms

wifi_event-WifiSane : (e : WifiEvent) (w : Wifi) → WifiSane w → WifiSane (wifi_event e w)
unfolding wifi_event set_state
wifi_event-WifiSane sta_start w v = record { published = refl; backoff = v.backoff }
wifi_event-WifiSane sta_connected w v = record { published = refl; backoff = ground arith }
wifi_event-WifiSane sta_disconnected w v = record {
  published = refl;
  backoff = ground (arith, v.backoff);
}
wifi_event-WifiSane other_event w v = v
wifi_event-WifiSane (got_ip ip) w v = record { published = refl; backoff = v.backoff }

-- Over any sequence of events, the published state stays the internal one, and the backoff stays
-- one of 1, 2, 4, 8, 16 and 32 seconds.
pub after_events-WifiSane :
    (es : List WifiEvent) (w : Wifi) → WifiSane w → WifiSane (after_events es w)
unfolding after_events
after_events-WifiSane [] w v = v
after_events-WifiSane (e ∷ es) w v =
    after_events-WifiSane es (wifi_event e w) (wifi_event-WifiSane e w v)

-- n disconnections in a row, the last one outermost.
pub lost : ℕ → Wifi → Wifi
lost zero w = w
lost (suc n) w = wifi_event sta_disconnected (lost n w)

backoff_step :
    (w : Wifi)
    → (wifi_event sta_disconnected w).backoff_ms
      ≡ (if ltb w.backoff_ms 30000 then w.backoff_ms * 2 % 2 ^ 32 else w.backoff_ms)
unfolding wifi_event set_state
backoff_step w = refl

backoff-lost_low :
    (w : Wifi)
    → w.backoff_ms ≡ 1000
    → ((lost 1 w).backoff_ms ≡ 2000)
      × ((lost 2 w).backoff_ms ≡ 4000)
      × ((lost 3 w).backoff_ms ≡ 8000)
      × ((lost 4 w).backoff_ms ≡ 16000)
      × ((lost 5 w).backoff_ms ≡ 32000)
unfolding lost wifi_event set_state
backoff-lost_low w h = ground (arith, h)

backoff-lost_high :
    (n : ℕ) (w : Wifi)
    → w.backoff_ms ≡ 1000
    → (lost (suc (suc (suc (suc (suc n))))) w).backoff_ms ≡ 32000
unfolding lost
backoff-lost_high zero w h = (backoff-lost_low w h).4
backoff-lost_high (suc n) w h =
    ground (arith, backoff_step (lost (suc (suc (suc (suc (suc n))))) w), backoff-lost_high n w h)

-- After a connection, n disconnections in a row leave a backoff of 1000 * 2 ^ n ms for an n below 5,
-- and of 32 s from the fifth on.
pub backoff-lost :
    (n : ℕ) (w : Wifi)
    → (lost n (wifi_event sta_connected w)).backoff_ms ≡ (if ltb n 5 then 1000 * 2 ^ n else 32000)
unfolding lost wifi_event
backoff-lost zero w = refl
backoff-lost (suc zero) w = (backoff-lost_low (wifi_event sta_connected w) refl).0
backoff-lost (suc (suc zero)) w = (backoff-lost_low (wifi_event sta_connected w) refl).1
backoff-lost (suc (suc (suc zero))) w = (backoff-lost_low (wifi_event sta_connected w) refl).2
backoff-lost (suc (suc (suc (suc zero)))) w = (backoff-lost_low (wifi_event sta_connected w) refl).3
backoff-lost (suc (suc (suc (suc (suc n))))) w =
    ground (arith, backoff-lost_high n (wifi_event sta_connected w) refl)
