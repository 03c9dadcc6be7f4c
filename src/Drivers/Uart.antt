-- ===== src/Drivers/Uart.antt =====
-- components/iot_drivers/src/iot_uart.c. The mutex of a port makes each call one step.
pub mod Bus
use esp32_iot_products.UseCase.Types.{set_at}
use esp32_iot_products.Core.Err.{
  Err, ok, invalid_arg, timeout, io, not_init, EspCodes, idf_calls, tolerate,
}
use esp32_iot_products.Prelude.Int.{ℤ, pos, pos_part, ltb_ℤ}
use esp32_iot_products.Drivers.Gpio.{Gpio, gpio_write}
use esp32_iot_products.Prelude.{
  List, ◌||◌, true, not, Option, some, ltb, false, Bool, none, ℕ, if◌then◌else◌, ◌∷◌,
}

-- `iot_uart_cfg_t`; the port is the enumerator's number.
pub record UartCfg : Type 0 where
  pub port : ℕ
  pub tx_pin : ℤ
  pub rx_pin : ℤ
  pub baud : ℤ
  pub rs485_de_enable : Bool
  pub de_pin : ℤ

-- `s_cfg` and `s_ready`
pub record Uart : Type 0 where
  pub cfgs : ℕ → UartCfg
  pub ready : ℕ → Bool

-- With the pins, one of which may drive an RS485 transceiver.
pub record UartDev : Type 0 where
  pub uart : Uart
  pub gpio : Gpio

-- `(void)iot_gpio_write(pin, level);`
unfoldable pub drive_pin : ℤ → Bool → UartDev → UartDev
drive_pin pin level d = record d { gpio = (gpio_write pin level d.gpio).1 }

-- `if (cfg->rs485_de_enable) iot_gpio_write(cfg->de_pin, level)`
unfoldable pub drive_de : UartCfg → Bool → UartDev → UartDev
drive_de cfg level d = if cfg.rs485_de_enable then drive_pin cfg.de_pin level d else d

module _ (k : EspCodes) where
  -- `created` is what making the mutex returns, `installed` and `calls` what ESP-IDF does: 0 and no
  -- calls on the host.
  pub uart_init : Err → ℤ → List ℤ → Option UartCfg → UartDev → Err × UartDev
  uart_init created installed calls none d = (invalid_arg, d)
  uart_init created installed calls (some cfg) d =
      let p = cfg.port in
      let u = record d.uart { cfgs = set_at d.uart.cfgs p cfg } in
      let up = record u { ready = set_at u.ready p true } in
      if ltb 1 p then (invalid_arg, d) else elim (if d.uart.ready p then ok else created) [
        | ok ↦ elim (idf_calls k (tolerate k installed ∷ calls)) [
          | ok ↦ (ok, record (drive_de cfg false d) { uart = up })
          | e ↦ (e, record d { uart = u })
        ]
        | e ↦ (e, d)
      ]

pub uart_deinit : ℕ → UartDev → Err × UartDev
uart_deinit p d =
    let u = d.uart in
    if ltb 1 p || not (u.ready p)
    then (not_init, d)
    else (ok, record d { uart = record u { ready = set_at u.ready p false } })

-- `n` is what writing the bytes returns: their number on the host. `given` tells whether `data`
-- is not NULL. The last component is the state while the bytes are sent.
pub uart_write : ℕ → Bool → ℤ → UartDev → Err × UartDev × Option UartDev
uart_write p given n d =
    if ltb 1 p || not (d.uart.ready p) || not given
    then (invalid_arg, d, none)
    else let cfg = d.uart.cfgs p in
      let sending = drive_de cfg true d in
      (if ltb_ℤ n (pos 0) then io else ok, drive_de cfg false sending, some sending)

-- `pointers` tells that neither is NULL; `received` is what ESP-IDF returns, none on the host. The
-- length is none where it is left alone.
pub uart_read : ℕ → Bool → Option ℤ → UartDev → Err × Option ℕ
uart_read p pointers received d =
    if ltb 1 p || not (d.uart.ready p) || not pointers then (invalid_arg, none) else elim received [
      | none ↦ (timeout, some 0)
      | some n ↦ (if ltb_ℤ n (pos 0) then io else ok, some (pos_part n))
    ]
