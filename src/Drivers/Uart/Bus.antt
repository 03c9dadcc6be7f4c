-- ===== src/Drivers/Uart/Bus.antt =====
-- The RS485 driver pin around a write in components/iot_drivers/src/iot_uart.c.
use esp32_iot_products.Prelude.{ℕ, ◌≡◌, ◌≤◌, true, false, ◌<◌}
use esp32_iot_products.Prelude.Int.{pos, pos_part, ltb_ℤ}
use esp32_iot_products.Drivers.Uart.{UartDev, UartCfg, drive_de}
use esp32_iot_products.Drivers.Gpio.Pins.{ShadowFits}

-- The port is up, and a pin of the GPIO driver turns the transceiver around.
unfoldable pub DrivesBus : ℕ → UartDev → Type 0
DrivesBus p d =
    p ≤ 1
    × d.uart.ready p ≡ true
    × (d.uart.cfgs p).rs485_de_enable ≡ true
    × d.gpio.init ≡ true
    × ltb_ℤ (d.uart.cfgs p).de_pin (pos 0) ≡ false
    × pos_part (d.uart.cfgs p).de_pin < 32
    × ShadowFits d.gpio

module _ (p : ℕ) (d : UartDev) (h : DrivesBus p d) where
  cfg : UartCfg
  cfg = d.uart.cfgs p

  sending : UartDev
  sending = drive_de cfg true d
