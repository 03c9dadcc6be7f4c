-- ===== src/UseCase/Energy/Alarms.antt =====
-- The measurement and the alarms of components/iot_usecases/src/iot_uc_energy.c.
use esp32_iot_products.UseCase.Json.{has_key, holds}
use esp32_iot_products.UseCase.Energy.{
  Energy, EnergyDev, eval_alarms, energy_led_alarm, energy_measure, energy_on_adc, energy_json,
  with_energy, energy_reply, set_alarm, given_v, given_i, set_inputs, add_energy,
}
use esp32_iot_products.UseCase.Types.{In, Out, zero_in}
use esp32_iot_products.Core.Err.{ok}
use esp32_iot_products.Core.Float.{Float, lt, whole}
use esp32_iot_products.Prelude.Int.{ℤ}
use esp32_iot_products.Prelude.Words.{add32}
use esp32_iot_products.Drivers.Gpio.{pin_led, gpio_write}
use esp32_iot_products.Prelude.{◌≡◌, if◌then◌else◌, arith, Bool, ◌||◌, true}

module _ {F : Type 0} ⦃fl : Float F⦄ where
  -- Some limit is passed.
  abbrev pub trips_on : Energy F → Bool
  trips_on s =
      fl.gt s.p s.over_w || fl.gt s.vrms s.over_v || lt s.vrms s.under_v || fl.gt s.irms s.over_i

  -- A measurement takes the power from the new voltage and current, adds the same step to both
  -- energy registers, sets the alarm exactly when a limit is passed, counts a trip modulo 2 ^ 32
  -- just then, writes the alarm to the LED's pin, and puts the alarm into the reply.
  pub energy_measure_lem :
      (inp : In F) (out : Out F) (d : EnergyDev F)
      → let (e, out', d') = energy_measure inp out d in
        let s = d.s in
        let s' = d'.s in
        (e ≡ ok)
        × (s'.p ≡ fl.mul (fl.mul s'.vrms s'.irms) s.pf)
        × (s'.kwh ≡ fl.add s.kwh (fl.div s'.p (whole 3600000)))
        × (s'.kwh_day ≡ fl.add s.kwh_day (fl.div s'.p (whole 3600000)))
        × (s'.alarm ≡ trips_on s')
        × (s'.trips ≡ (if s'.alarm then add32 s.trips 1 else s.trips))
        × (d'.gpio ≡ (gpio_write pin_led s'.alarm d.gpio).1)
        × (out'.alarm ≡ s'.alarm)
  unfolding energy_measure energy_led_alarm energy_reply energy_json with_energy eval_alarms
      set_alarm add_energy set_inputs
  energy_measure_lem inp out d = ground arith

  -- The reading of the ADC that stands for the RMS voltage, before calibration.
  abbrev pub adc_volts : ℤ → F
  adc_volts mv = fl.add (whole 80) (fl.mul (fl.of_int mv) (fl.lit 5 100))

  -- The sensor path applies the voltage's scale factor twice: where the scaled reading is positive,
  -- the stored voltage is the reading times the factor times the factor.
  pub energy_on_adc-scales_twice :
      (mv : ℤ) (out : Out F) (d : EnergyDev F)
      → fl.gt (fl.mul (adc_volts mv) d.s.v_scale) (whole 0) ≡ true
      → (energy_on_adc mv out d).2.s.vrms ≡ fl.mul (fl.mul (adc_volts mv) d.s.v_scale) d.s.v_scale
  unfolding energy_on_adc energy_measure energy_led_alarm energy_reply with_energy eval_alarms
      set_alarm add_energy set_inputs given_v given_i holds has_key zero_in
  energy_on_adc-scales_twice mv out d h = ground arith
