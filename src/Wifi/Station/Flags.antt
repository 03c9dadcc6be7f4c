-- ===== src/Wifi/Station/Flags.antt =====
-- What the station of components/iot_wifi/src/iot_wifi.c tells the other tasks in the event group.
use Prim.Native.Nat.{min, max, bit_and, bit_or}
use esp32_iot_products.Wifi.{
  WifiState, ip_ready, Wifi, WifiEvent, wifi_event, wifi_stop, connecting, set_state, sta_start,
  sta_connected, sta_disconnected, other_event, got_ip, down_bits, is_ip_ready, disconnected,
  connected, reconnecting, error,
}
use esp32_iot_products.CText.{Text, snprintf}
use esp32_iot_products.Core.Err.{EspCodes}
use esp32_iot_products.Prelude.Bits.{
  digit, digit-bit_or, digit-bit_and, digit-small, digit-complement, digit-le, digit-pow,
}
use esp32_iot_products.Prelude.Int.{ℤ, pos, eqb_ℤ}
use esp32_iot_products.Wifi.Station.{wifi_start_esp}
use esp32_iot_products.Rtos.Event.{complement, evt_wifi_ip, event_set, event_clear}
use esp32_iot_products.Prelude.{
  arith, ◌-◌, ◌∷◌, ℕ, ◌∙◌, ap, some, ◌<◌, [], List, ◌≡◌, Option, refl, false, ◌%◌, ltb, take, ◌*◌,
  ◌==◌, if◌then◌else◌, none, Bool-cases, inr, length, inl,
}
use esp32_iot_products.Prelude.Words.{u32_mod, add32}

-- What happens to the station: an event of ESP-IDF, or a call.
pub data StationAct : Type 0 where
  happens : WifiEvent → StationAct
  starts : ℤ → ℤ → Option Text → Option Text → StationAct
  stops : StationAct

unfoldable pub station_act : EspCodes → StationAct → Wifi → Wifi
station_act k (happens e) w = wifi_event e w
station_act k (starts configured started ssid pass) w =
    (wifi_start_esp k configured started ssid pass w).1
station_act k stops w = (wifi_stop w).1

unfoldable pub station_acts : EspCodes → List StationAct → Wifi → Wifi
station_acts k [] w = w
station_acts k (a ∷ acts) w = station_acts k acts (station_act k a w)

-- The flag IOT_EVT_WIFI_IP for a state.
unfoldable pub ip_flag : WifiState → ℕ
ip_flag ip_ready = 1
ip_flag _ = 0

-- The group stands, its lowest flag tells whether there is an address, and the flags from the third on
-- are those of `cur`.
unfoldable pub Tells : ℕ → Wifi → Type 0
Tells cur w =
    (now : ℕ) × (w.system_evt ≡ some now)
    × (digit 0 now ≡ ip_flag w.state)
    × ((q : ℕ) → 1 < q → q < 32 → digit q now ≡ digit q cur)

set_low : (now q : ℕ) → digit q (bit_or now evt_wifi_ip) ≡ max (digit q now) (digit q 1)
set_low now q = digit-bit_or q now 1

clear_low :
    (now q : ℕ) → q < 32 → digit q (bit_and now (complement 3)) ≡ min (digit q now) (1 - digit q 3)
clear_low now q h =
    digit-bit_and q now (complement 3)
    ∙ ap (min (digit q now)) (digit-complement q 32 3 h (ground arith))

high_one : (q : ℕ) → 0 < q → digit q 1 ≡ 0
high_one q h = digit-small q 1 1 h (ground arith)

high_three : (q : ℕ) → 1 < q → digit q 3 ≡ 0
high_three q h = digit-small q 2 3 h (ground arith)

low_three : digit 0 3 ≡ 1
unfolding digit
low_three = refl

joined-Tells :
    (cur now : ℕ) (w : Wifi)
    → w.system_evt ≡ some now
    → ((q : ℕ) → 1 < q → q < 32 → digit q now ≡ digit q cur)
    → Tells cur (set_state ip_ready w)
unfolding Tells set_state is_ip_ready event_set ip_flag
joined-Tells cur now w e high = (
  bit_or now evt_wifi_ip,
  rw e refl,
  omega (arith, set_low now 0, digit-le 0 now, digit-pow 0),
  λ q h k. omega (arith, set_low now q, high_one q (omega arith), high q h k),
)

parted-Tells :
    (cur now : ℕ) (w : Wifi) (st : WifiState)
    → is_ip_ready st ≡ false
    → ip_flag st ≡ 0
    → w.system_evt ≡ some now
    → ((q : ℕ) → 1 < q → q < 32 → digit q now ≡ digit q cur)
    → Tells cur (set_state st w)
unfolding Tells set_state is_ip_ready event_clear down_bits
parted-Tells cur now w st other flag e high = (
  bit_and now (complement 3),
  rw other (rw e refl),
  omega (arith, clear_low now 0 (omega arith), low_three, flag),
  λ q h k. omega (arith, clear_low now q k, high_three q h, high q h k, digit-le q now),
)

set_state-Tells : (cur : ℕ) (st : WifiState) (w : Wifi) → Tells cur w → Tells cur (set_state st w)
unfolding Tells ip_flag is_ip_ready
set_state-Tells cur ip_ready w (now, e, flag, high) = joined-Tells cur now w e high
set_state-Tells cur other w (now, e, flag, high) = parted-Tells cur now w other refl refl e high

wifi_event-Tells : (cur : ℕ) (e : WifiEvent) (w : Wifi) → Tells cur w → Tells cur (wifi_event e w)
unfolding wifi_event Tells set_state
wifi_event-Tells cur sta_start w t = set_state-Tells cur connecting w t
wifi_event-Tells cur sta_connected w t = set_state-Tells cur connected w t
wifi_event-Tells cur sta_disconnected w t =
    set_state-Tells cur connecting
      (record (set_state reconnecting (record w { retry_count = add32 w.retry_count 1 })) {
        backoff_ms = if ltb w.backoff_ms 30000 then w.backoff_ms * 2 % u32_mod else w.backoff_ms;
      })
      (set_state-Tells cur reconnecting (record w { retry_count = add32 w.retry_count 1 }) t)
wifi_event-Tells cur other_event w t = t
wifi_event-Tells cur (got_ip ip) w t =
    set_state-Tells cur ip_ready (record w { ip = snprintf 16 ip }) t

wifi_start_esp-Tells :
    (k : EspCodes) (cur : ℕ) (configured started : ℤ) (ssid pass : Option Text) (w : Wifi)
    → Tells cur w
    → Tells cur (wifi_start_esp k configured started ssid pass w).1
unfolding wifi_start_esp Tells
wifi_start_esp-Tells k cur configured started none pass w t = t
wifi_start_esp-Tells k cur configured started (some ssid) pass w t =
    let w₁ : Wifi = record w {
      ssid = take 32 ssid;
      pass = elim pass [ none ↦ [] | some p ↦ take 64 p ];
    } in
    elim (Bool-cases (length ssid == 0)) [
      | inl e ↦ rw e t
      | inr e ↦ rw e (elim (Bool-cases (eqb_ℤ configured (pos 0))) [
        | inl c ↦ rw c (set_state-Tells cur connecting w₁ t)
        | inr c ↦ rw c (set_state-Tells cur error w₁ t)
      ])
    ]

station_act-Tells :
    (k : EspCodes) (cur : ℕ) (a : StationAct) (w : Wifi)
    → Tells cur w
    → Tells cur (station_act k a w)
unfolding station_act wifi_stop
station_act-Tells k cur (happens e) w t = wifi_event-Tells cur e w t
station_act-Tells k cur (starts configured started ssid pass) w t =
    wifi_start_esp-Tells k cur configured started ssid pass w t
station_act-Tells k cur stops w t = set_state-Tells cur disconnected w t

-- Whatever ESP-IDF reports and returns, and whatever is called in between: when IOT_EVT_WIFI_IP says
-- whether there is an address, it goes on to say so, and of the other flags only IOT_EVT_MQTT_UP is
-- touched.
pub station_acts-Tells :
    (k : EspCodes) (cur : ℕ) (acts : List StationAct) (w : Wifi)
    → w.system_evt ≡ some cur
    → digit 0 cur ≡ ip_flag w.state
    → let w' = station_acts k acts w in
      (now : ℕ) × (w'.system_evt ≡ some now)
      × (digit 0 now ≡ ip_flag w'.state)
      × ((q : ℕ) → 1 < q → q < 32 → digit q now ≡ digit q cur)
unfolding station_acts Tells
station_acts-Tells k cur acts w e flag = go acts w (cur, e, flag, λ q h k. refl)
  where
    go : (acts : List StationAct) (w : Wifi) → Tells cur w → Tells cur (station_acts k acts w)
    go [] w t = t
    go (a ∷ acts) w t = go acts (station_act k a w) (station_act-Tells k cur a w t)
