-- ===== src/Profiles.antt =====
-- components/iot_profiles/src: what a product does with a sample. A node runs one of the profiles.
pub mod Commands
pub mod Moisture
pub mod Startup
use esp32_iot_products.CText.{Text, codes}
use esp32_iot_products.Services.{fill_telemetry}
use esp32_iot_products.UseCase.Charger.{ev_on_sample}
use esp32_iot_products.UseCase.Water.{water_on_sample}
use esp32_iot_products.UseCase.Energy.{energy_on_adc}
use esp32_iot_products.UseCase.Predictive.{pm_on_sample}
use esp32_iot_products.UseCase.Robot.{robot_on_uart}
use esp32_iot_products.UseCase.Agri.{agri_on_sample}
use esp32_iot_products.UseCase.Industrial.{ind_on_sample}
use esp32_iot_products.UseCase.Run.{
  World, on_ind, on_pm, on_ev, on_can, on_trk, on_agri, on_cold, on_robot, on_energy, on_water,
}
use esp32_iot_products.UseCase.Types.{Out, zero_in}
use esp32_iot_products.UseCase.ColdChain.{cold_on_sample}
use esp32_iot_products.UseCase.Automotive.{auto_on_frame}
use esp32_iot_products.UseCase.Tracker.{trk_on_sample}
use esp32_iot_products.Core.Err.{Err, ok, EspCodes}
use esp32_iot_products.Core.Float.{Float, whole}
use esp32_iot_products.Core.Types.{TelemetryMsg}
use esp32_iot_products.Prelude.Int.{ℤ, pos, negsuc, pos_part, neg_part, sub_ℕ, ◌*ℤ◌}
use esp32_iot_products.Prelude.Words.{rem, quot}
use esp32_iot_products.Drivers.I2c.{I2c, Reply, i2c_read}
use esp32_iot_products.Drivers.Spi.{Spi, spi_transfer}
use esp32_iot_products.Drivers.Adc.{Adc, adc_read_mv}
use esp32_iot_products.Drivers.Exti.{Exti, pin_exti_pulse, exti_count}
use esp32_iot_products.Drivers.Uart.{Uart, uart_read, UartDev}
use esp32_iot_products.Rtos.Loops.{SensorHook, ProcHook}
use esp32_iot_products.Prelude.{
  none, ◌∷◌, ◌+◌, false, ◌^◌, ◌%◌, if◌then◌else◌, List, ltb, get_or, ℕ, true, some, ◌*◌, replicate,
  Option,
}

-- `CONFIG_IOT_PROFILE_…`; the energy monitor is the default.
pub data Profile : Type 0 where
  profile_industrial profile_predictive profile_water profile_ev profile_automotive : Profile
  profile_tracker profile_agri profile_coldchain profile_robotics profile_energy : Profile

pub profile_name : Profile → Text
profile_name profile_industrial = codes "industrial"
profile_name profile_predictive = codes "predictive"
profile_name profile_water = codes "water"
profile_name profile_ev = codes "ev_charger"
profile_name profile_automotive = codes "automotive"
profile_name profile_tracker = codes "asset_tracker"
profile_name profile_agri = codes "agriculture"
profile_name profile_coldchain = codes "coldchain"
profile_name profile_robotics = codes "robotics"
profile_name profile_energy = codes "energy"

-- `passthrough_proc`, the processing hook of all profiles: `s_proc` is never set.
pub passthrough_proc : ProcHook
passthrough_proc inp out = (ok, inp)

-- The states that the sensor hooks reach, what the buses answer next (none on the host), and what
-- the uninitialised local `uco` holds.
pub record Node (F : Type 0) : Type 0 where
  pub world : World F
  pub adc : Adc
  pub exti : Exti
  pub i2c : I2c
  pub spi : Spi
  pub ports : Uart
  pub i2c_reply : Option Reply
  pub spi_reply : Option Reply
  pub uart_reply : Option ℤ
  pub uco : Out F

-- `int mv = 0; (void)iot_adc_read_mv(IOT_PIN_ADC_V, &mv);`
pub sense_mv : Adc → ℤ
sense_mv adc = elim (adc_read_mv true adc).1 [ none ↦ pos 0 | some z ↦ z ]

-- The bytes of a buffer of `len` zeros after `iot_i2c_read`.
bus_read : {F : Type 0} → EspCodes → ℕ → Node F → Err × List ℕ
bus_read k len n =
    let (e, bytes) = i2c_read k n.i2c_reply (some (replicate len 0)) n.i2c in
    (e, elim bytes [ none ↦ replicate len 0 | some bs ↦ bs ])

-- `(raw[0] << 8) | raw[1]`, of bytes.
pub decode_u16_be : List ℕ → ℕ → ℕ
decode_u16_be bytes i = get_or bytes i 0 * 256 + get_or bytes (i + 1) 0

-- `(int16_t)` of a value of 16 bits
abbrev int_of_u16 : ℕ → ℤ
int_of_u16 n = if ltb n (2 ^ 15) then pos n else sub_ℕ n (2 ^ 16)

-- `(int)((3300 - mv) * 100 / 3300)`
unfoldable pub moisture : ℤ → ℤ
moisture mv = quot (sub_ℕ (3300 + neg_part mv) (pos_part mv) *ℤ pos 100) 3300

module _ {F : Type 0} where
  -- `return iot_services_fill_telemetry(out, uco.json);`
  deliver : TelemetryMsg → Node F → Err × Out F × World F → Err × TelemetryMsg × Node F
  deliver msg n (e, uco, σ) =
      let (code, filled) = fill_telemetry (some msg) (some uco.json) in
      (code, elim filled [ none ↦ msg | some m ↦ m ], record n { world = σ })

  -- The same behind `if (IOT_FAIL(e)) return e;`.
  deliver_good : TelemetryMsg → Node F → Err × Out F × World F → Err × TelemetryMsg × Node F
  deliver_good msg n (ok, uco, σ) = deliver msg n (ok, uco, σ)
  deliver_good msg n (e, uco, σ) = (e, msg, record n { world = σ })

module _ {F : Type 0} ⦃fl : Float F⦄ (k : EspCodes) where
  -- `(float)z / d` with a constant `d`
  over : ℤ → ℕ → F
  over z d = fl.div (fl.of_int z) (whole d)

  energy_sensor : SensorHook (Node F)
  energy_sensor msg n =
      deliver_good msg n (on_energy (λ inp. energy_on_adc (sense_mv n.adc)) zero_in n.uco n.world)

  industrial_sensor : SensorHook (Node F)
  industrial_sensor msg n =
      let (e, raw) = bus_read k 2 n in
      let temp : F = elim e [
        | ok ↦ fl.mul (fl.of_int (int_of_u16 (decode_u16_be raw 0))) (fl.lit 78125 10000000)
        | _ ↦ whole 25
      ] in
      let mv = sense_mv n.adc in
      let vib = over (rem mv 500) 10 in
      let current = fl.add (whole 1) (over (rem mv 200) 100) in
      let pressure = fl.add (whole 1) (over (rem mv 400) 200) in
      let pulses = exti_count pin_exti_pulse n.exti in
      deliver msg n
        (on_ind (λ inp. ind_on_sample temp vib current pressure pulses) zero_in n.uco n.world)

  -- The subtraction of 1650 is the addition of -1650, which is exact.
  predictive_sensor : SensorHook (Node F)
  predictive_sensor msg n =
      let mv = sense_mv n.adc in
      let x = fl.div (fl.add (fl.of_int mv) (fl.of_int (negsuc 1649))) (whole 100) in
      deliver msg n (on_pm (λ inp. pm_on_sample x) zero_in n.uco n.world)

  water_sensor : SensorHook (Node F)
  water_sensor msg n =
      let pulses = exti_count pin_exti_pulse n.exti in
      let mv = sense_mv n.adc in
      deliver msg n (on_water (λ inp. water_on_sample pulses mv) zero_in n.uco n.world)

  ev_sensor : SensorHook (Node F)
  ev_sensor msg n =
      deliver msg n (on_ev (λ inp. ev_on_sample (sense_mv n.adc)) zero_in n.uco n.world)

  -- `rx` starts as eight zeros, and `tx` asks for a frame.
  automotive_sensor : SensorHook (Node F)
  automotive_sensor msg n =
      let tx = 0x90 ∷ replicate 7 0 in
      let (e, got) = spi_transfer k n.spi_reply (some tx) (some (replicate 8 0)) n.spi in
      let rx : List ℕ = elim got [ none ↦ replicate 8 0 | some bs ↦ bs ] in
      let speed = decode_u16_be rx 2 % 250 in
      let rpm = 800 + decode_u16_be rx 4 % 4000 in
      deliver msg n (
        on_can (λ inp. auto_on_frame (get_or rx 1 0) speed rpm (get_or rx 6 0)) zero_in n.uco
          n.world)

  tracker_sensor : SensorHook (Node F)
  tracker_sensor msg n =
      deliver msg n
        (on_trk (λ inp. trk_on_sample (negsuc 61) (pos 3900) false) zero_in n.uco n.world)

  agri_sensor : SensorHook (Node F)
  agri_sensor msg n =
      let moist = moisture (sense_mv n.adc) in
      deliver msg n (on_agri (λ inp. agri_on_sample moist) zero_in n.uco n.world)

  coldchain_sensor : SensorHook (Node F)
  coldchain_sensor msg n =
      let (e, raw) = bus_read k 2 n in
      let t = fl.add (whole 4) (over (pos (get_or raw 0 0)) 50) in
      deliver msg n (on_cold (λ inp. cold_on_sample t (whole 55) false) zero_in n.uco n.world)

  robotics_sensor : SensorHook (Node F)
  robotics_sensor msg n =
      let dev : UartDev = record { uart = n.ports; gpio = n.world.gpio } in
      let heard : ℕ = elim (uart_read 1 true n.uart_reply dev).1 [ none ↦ 0 | some m ↦ m ] in
      deliver msg n (on_robot (λ inp. robot_on_uart heard) zero_in n.uco n.world)

  -- `s_sensor`, as `iot_profile_init` sets it.
  pub sensor_hook : Profile → SensorHook (Node F)
  sensor_hook profile_industrial = industrial_sensor
  sensor_hook profile_predictive = predictive_sensor
  sensor_hook profile_water = water_sensor
  sensor_hook profile_ev = ev_sensor
  sensor_hook profile_automotive = automotive_sensor
  sensor_hook profile_tracker = tracker_sensor
  sensor_hook profile_agri = agri_sensor
  sensor_hook profile_coldchain = coldchain_sensor
  sensor_hook profile_robotics = robotics_sensor
  sensor_hook profile_energy = energy_sensor
