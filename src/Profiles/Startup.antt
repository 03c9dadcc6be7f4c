-- ===== src/Profiles/Startup.antt =====
-- The init functions of components/iot_profiles/src, built for the host. A profile sets up what its
-- sensor hook reads; all codes but the last are ignored.
use esp32_iot_products.Profiles.{
  Profile, profile_industrial, profile_predictive, profile_water, profile_ev, profile_automotive,
  profile_tracker, profile_agri, profile_coldchain, profile_robotics, profile_energy, Node,
}
use esp32_iot_products.Core.Err.{Err, EspCodes}
use esp32_iot_products.Prelude.Int.{pos, negsuc}
use esp32_iot_products.Drivers.I2c.{i2c_init}
use esp32_iot_products.Drivers.Spi.{spi_init}
use esp32_iot_products.Drivers.Pwm.{pwm_init}
use esp32_iot_products.Drivers.Adc.{adc_init}
use esp32_iot_products.Drivers.Exti.{pin_exti_pulse, exti_init}
use esp32_iot_products.Drivers.Uart.{UartCfg, UartDev, uart_init}
use esp32_iot_products.Prelude.{Option, some, [], none, true, false, ℕ}

-- What making the drivers' mutexes returns.
pub record Mutexes : Type 0 where
  pub adc_mutex : Err
  pub i2c_mutex : Err
  pub spi_mutex : Err
  pub uart_mutex : Err

-- `u1` of the robot gateway.
robot_uart_cfg : UartCfg
robot_uart_cfg = record {
  port = 1;
  tx_pin = pos 4;
  rx_pin = pos 5;
  baud = pos 115200;
  rs485_de_enable = false;
  de_pin = negsuc 0;
}

module _ {F : Type 0} (k : EspCodes) (m : Mutexes) where
  adc_up : Node F → Node F
  adc_up n = record n { adc = (adc_init k m.adc_mutex [] n.adc).1 }

  i2c_up : Node F → Node F
  i2c_up n = record n { i2c = (i2c_init k m.i2c_mutex [] true n.i2c).1 }

  spi_up : Node F → Node F
  spi_up n = record n { spi = (spi_init k m.spi_mutex (pos 0) [] true n.spi).1 }

  uart_up : Node F → Node F
  uart_up n =
      let dev : UartDev = record { uart = n.ports; gpio = n.world.gpio } in
      let dev' = (uart_init k m.uart_mutex (pos 0) [] (some robot_uart_cfg) dev).1 in
      let σ = n.world in record n { ports = dev'.uart; world = record σ { gpio = dev'.gpio } }

  -- `sem` is the tasks' semaphore for samples, if there is one.
  exti_up : Option ℕ → Node F → Node F
  exti_up none n = n
  exti_up (some sem) n = record n {
    exti = (exti_init k (pos 0) [] pin_exti_pulse (some sem) n.exti).1;
  }

  -- `iot_pwm_init(IOT_PIN_PWM_OUT, 1000, 10)`
  pwm_up : Node F → Node F
  pwm_up n =
      let σ = n.world in
      let a = σ.agri in
      record n { world = record σ { agri = record a { pwm = (pwm_init 10 a.pwm).1 } } }

  -- `iot_uc_init`
  uc_up : Node F → Node F
  uc_up n = let σ = n.world in record n { world = record σ { init = true } }

  -- The end of `iot_profile_init`; configuring a pin changes no state on the host.
  pub profile_init : Profile → Option ℕ → Node F → Node F
  profile_init profile_industrial sem n = exti_up sem (adc_up (i2c_up n))
  profile_init profile_predictive sem n = adc_up n
  profile_init profile_water sem n = exti_up sem (adc_up n)
  profile_init profile_ev sem n = adc_up n
  profile_init profile_automotive sem n = spi_up n
  profile_init profile_tracker sem n = n
  profile_init profile_agri sem n = pwm_up (adc_up (i2c_up n))
  profile_init profile_coldchain sem n = i2c_up n
  profile_init profile_robotics sem n = uart_up n
  profile_init profile_energy sem n = uc_up (adc_up n)
