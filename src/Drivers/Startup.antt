-- ===== src/Drivers/Startup.antt =====
-- components/iot_drivers/src/iot_drivers.c.
use esp32_iot_products.Core.Err.{Err, ok, already_init, EspCodes}
use esp32_iot_products.Prelude.Int.{ℤ, pos, negsuc}
use esp32_iot_products.Drivers.Gpio.{gpio_init}
use esp32_iot_products.Drivers.Wdt.{Wdt, wdt_init}
use esp32_iot_products.Drivers.Uart.{UartCfg, UartDev, uart_init}
use esp32_iot_products.Prelude.{if◌then◌else◌, some, List, true, false, Bool}

-- The static states that `iot_drivers_init` reaches.
pub record DriversDev : Type 0 where
  pub wdt : Wdt
  pub ports : UartDev

-- `u0`
pub console_cfg : UartCfg
console_cfg = record {
  port = 0;
  tx_pin = pos 21;
  rx_pin = pos 20;
  baud = pos 115200;
  rs485_de_enable = false;
  de_pin = negsuc 0;
}

-- What the calls of others return that `iot_drivers_init` leads to: making the two mutexes, and
-- those of ESP-IDF.
pub record DriversCalls : Type 0 where
  pub gpio_mutex : Err
  pub wdt_code : ℤ
  pub uart_mutex : Err
  pub uart_install : ℤ
  pub uart_calls : List ℤ

-- `IOT_FAIL(e) && (e != IOT_ERR_ALREADY_INIT)`
stops : Err → Bool
stops ok = false
stops already_init = false
stops _ = true

module _ (k : EspCodes) (c : DriversCalls) where
  -- From `iot_wdt_init()` on.
  finish_drivers : DriversDev → Err × DriversDev
  finish_drivers d =
      let (e, w) = wdt_init k c.wdt_code d.wdt in
      let up =
        (uart_init k c.uart_mutex c.uart_install c.uart_calls (some console_cfg) d.ports).1 in
      elim e [ ok ↦ (ok, record { wdt = w; ports = up }) | other ↦ (other, record d { wdt = w }) ]

  pub drivers_init : DriversDev → Err × DriversDev
  drivers_init d =
      let p = d.ports in
      let (e, g) = gpio_init c.gpio_mutex p.gpio in
      let d' = record d { ports = record p { gpio = g } } in
      if stops e then (e, d') else finish_drivers d'
