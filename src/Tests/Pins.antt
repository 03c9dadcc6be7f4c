-- ===== src/Tests/Pins.antt =====
-- The pins and the RS485 bus on one board, and the flags of one event group.
use esp32_iot_products.Drivers.Gpio.{Gpio}
use esp32_iot_products.Core.Err.{ok}
use esp32_iot_products.Prelude.Bits.{digit}
use esp32_iot_products.Prelude.Int.{pos, negsuc}
use esp32_iot_products.Drivers.Uart.{UartCfg, UartDev}
use esp32_iot_products.Drivers.Gpio.Pins.{
  PinAct, pin_init, pin_deinit, pin_config, pin_write, pin_read, pin_toggle, gpio_acts, bank_acts,
  bank_of, ShadowFits, HasPin, HavePins,
}
use esp32_iot_products.Drivers.Gpio.Pins.Calls.{gpio_acts-bank_acts}
use esp32_iot_products.Rtos.Event.Flags.{
  EventAct, set_bits, clear_bits, wait_bits, event_acts, flag_acts, WordMask, WordMasks,
  event_acts-flag_acts,
}
use esp32_iot_products.Prelude.{
  List, ◌∷◌, ◌==◌, arith, false, [], refl, ℕ, true, some, ◌≡◌, none, ◌<◌, ◌+◌,
}
use esp32_iot_products.Wifi.{WifiState, Wifi, sta_start, sta_disconnected, got_ip}
use esp32_iot_products.CText.{codes}
use esp32_iot_products.Tests.Tasks.{esp_codes}
use esp32_iot_products.Wifi.Station.Flags.{
  StationAct, happens, starts, stops, station_acts, ip_flag, station_acts-Tells,
}
use esp32_iot_products.Rtos.Sync.{delay_span}
use esp32_iot_products.Prelude.Words.{add32}
use esp32_iot_products.Rtos.Sync.Clock.{millis_at, span_of, millis_at-delay_span}

abbrev board : Gpio
board = record { init = true; out_shadow = 0x80000100 }

-- Two pins change, a negative number and a pin that cannot be configured are refused, and the
-- driver goes down.
abbrev pin_calls : List PinAct
pin_calls =
    pin_write (pos 31) false
    ∷ pin_toggle (pos 3)
    ∷ pin_read (pos 8)
    ∷ pin_write (negsuc 0) true
    ∷ pin_config (pos 22)
    ∷ pin_init ok
    ∷ pin_deinit
    ∷ pin_read (pos 3)
    ∷ []

board-ShadowFits : ShadowFits board
unfolding ShadowFits
board-ShadowFits = ground arith

pin_calls-HavePins : HavePins pin_calls
unfolding HavePins HasPin
pin_calls-HavePins = ground arith

gpio_acts-bank_acts_example :
    bank_acts pin_calls (bank_of board)
    ≡ ((gpio_acts pin_calls board).0, bank_of (gpio_acts pin_calls board).1)
gpio_acts-bank_acts_example =
    gpio_acts-bank_acts pin_calls board pin_calls-HavePins board-ShadowFits

abbrev half_duplex : UartCfg
half_duplex = record {
  port = 1;
  tx_pin = pos 21;
  rx_pin = pos 20;
  baud = pos 9600;
  rs485_de_enable = true;
  de_pin = pos 5;
}

abbrev line : UartDev
line = record { uart = record { cfgs = λ p. half_duplex; ready = λ p. p == 1 }; gpio = board }

abbrev flag_calls : List EventAct
flag_calls = set_bits 6 ∷ wait_bits 2 true ∷ clear_bits 0x80000000 ∷ set_bits 1 ∷ []

flag_calls-WordMasks : WordMasks flag_calls
unfolding WordMasks WordMask
flag_calls-WordMasks = ground arith

event_acts-flag_acts_example :
    (after : ℕ) × (event_acts flag_calls (some 0) ≡ some after)
    × (digit 2 after ≡ flag_acts 2 flag_calls (digit 2 0))
event_acts-flag_acts_example =
    event_acts-flag_acts 2 0 flag_calls (ground arith) flag_calls-WordMasks

abbrev station : Wifi
station = record {
  state = WifiState.disconnected;
  status = WifiState.disconnected;
  retry_count = 0;
  backoff_ms = 1000;
  ip = [];
  ssid = [];
  pass = [];
  system_evt = some 0x80000020;
}

abbrev station_calls : List StationAct
station_calls =
    starts (pos 0) (pos 0) (some (codes "plant")) none
    ∷ happens sta_start
    ∷ happens (got_ip (codes "10.0.0.7"))
    ∷ happens sta_disconnected
    ∷ starts (pos 258) (pos 0) (some (codes "other")) none
    ∷ stops
    ∷ []

station-low : digit 0 0x80000020 ≡ ip_flag station.state
unfolding digit ip_flag
station-low = refl

station_acts-Tells_example :
    let w' = station_acts esp_codes station_calls station in
    (now : ℕ) × (w'.system_evt ≡ some now)
    × (digit 0 now ≡ ip_flag w'.state)
    × ((q : ℕ) → 1 < q → q < 32 → digit q now ≡ digit q 0x80000020)
station_acts-Tells_example =
    station_acts-Tells esp_codes 0x80000020 station_calls station refl station-low

-- Three seconds and a bit, on a clock that is about to pass 2 ^ 32 milliseconds.
millis_at-delay_span_example :
    ((delay_span 3007).1 < 1000000000)
    × (millis_at (4294967295000000 + span_of 3007) ≡ add32 (millis_at 4294967295000000) 3007)
millis_at-delay_span_example = millis_at-delay_span 3007 4294967295000000
