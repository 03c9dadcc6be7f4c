-- ===== src/Tests/Machines.antt =====
-- The properties of the industrial, the predictive, the water and the energy product, at inputs
-- that exercise them.
use esp32_iot_products.UseCase.Water.{WaterDev, water_init, pulses_of, water_meter}
use esp32_iot_products.UseCase.Energy.{EnergyDev, energy_init, energy_measure}
use esp32_iot_products.UseCase.Predictive.{pm_init}
use esp32_iot_products.UseCase.Industrial.{fault, is_fault, Ind, ind_init, ind_step_state}
use esp32_iot_products.UseCase.Types.{In, Out, set_at, zero_in, zero_out}
use esp32_iot_products.UseCase.Energy.Alarms.{trips_on, energy_measure_lem}
use esp32_iot_products.UseCase.Water.Billing.{pulse_step, water_meter-totals}
use esp32_iot_products.UseCase.Water.Valve.{water_meter_lem}
use esp32_iot_products.UseCase.Industrial.Faults.{over_limit, shakes, is_fault-ind_step_state}
use esp32_iot_products.UseCase.Predictive.Features.{sample_all, Within, peak-Within}
use esp32_iot_products.Core.Err.{ok}
use esp32_iot_products.Core.Float.{whole}
use esp32_iot_products.Core.Float.Milli.{Milli, milli_float}
use esp32_iot_products.Prelude.Int.{ℤ, pos, negsuc, ltb_ℤ}
use esp32_iot_products.Prelude.Words.{add32}
use esp32_iot_products.Drivers.Gpio.{pin_led, gpio_write}
use esp32_iot_products.Prelude.{
  ◌≡◌, ◌&&◌, true, not, arith, ◌∷◌, if◌then◌else◌, false, ◌↔◌, ◌⊎◌, [], List, ◌||◌,
}

abbrev blank : In Milli
blank = zero_in

abbrev reply : Out Milli
reply = zero_out

abbrev shaking : Ind Milli
shaking = record ind_init { st = fault; vib = pos 50000; ack_needed = 1 }

is_fault-ind_step_state_example :
    (is_fault (ind_step_state shaking).st ≡ true)
    ↔ ((over_limit shaking ≡ true) ⊎ ((is_fault shaking.st ≡ true) × (shakes shaking ≡ false)))
is_fault-ind_step_state_example = is_fault-ind_step_state shaking

ltb_ℤ-irreflexive : (a : ℤ) → ltb_ℤ a a ≡ false
ltb_ℤ-irreflexive a = ground arith

ltb_ℤ-below : (a b c : ℤ) → ltb_ℤ b a ≡ false → ltb_ℤ b c ≡ true → ltb_ℤ c a ≡ false
ltb_ℤ-below a b c h k = ground (arith, h, k)

abbrev knocks : List Milli
knocks = pos 1000 ∷ negsuc 2999 ∷ pos 500 ∷ []

peak-Within_example : Within (sample_all knocks reply pm_init).peak knocks
peak-Within_example = peak-Within ltb_ℤ-irreflexive ltb_ℤ-below knocks reply pm_init

abbrev pipe : WaterDev Milli
pipe = record { w = water_init; gpio = record { init = true; out_shadow = 0 } }

abbrev pulses : In Milli
pulses = record blank { u = set_at blank.u 0 7 }

water_meter_lem_example :
    let (e, out', d') = water_meter pulses reply pipe in
    let w' = d'.w in
    (e ≡ ok)
    × (w'.burst ≡ milli_float.gt w'.flow_lpm w'.burst_lpm)
    × (w'.valve_open ≡ (pipe.w.valve_open && not w'.burst))
    × (w'.leak ≡ (milli_float.gt w'.flow_lpm (milli_float.lit 1 10) && not pipe.w.valve_open))
    × (out'.alarm ≡ (w'.leak || w'.burst || w'.tamper))
water_meter_lem_example = water_meter_lem pulses reply pipe

water_meter-totals_example :
    let w = pipe.w in
    let w' = (water_meter pulses reply pipe).2.w in
    let delta =
      if milli_float.gt w.k_ppl (milli_float.lit 1 100)
      then milli_float.div (milli_float.of_int (pos (pulse_step pulses w))) w.k_ppl
      else whole 0 in
    (w'.last_pulses ≡ pulses_of pulses)
    × (w'.flow_lpm ≡ milli_float.mul delta (whole 60))
    × (w'.liters ≡ (if w.frozen then w.liters else milli_float.add w.liters delta))
    × (w'.billing ≡ (if w.frozen then w.billing else milli_float.add w.billing delta))
water_meter-totals_example = water_meter-totals pulses reply pipe

abbrev mains : EnergyDev Milli
mains = record { s = energy_init; gpio = record { init = true; out_shadow = 0 } }

energy_measure_lem_example :
    let (e, out', d') = energy_measure blank reply mains in
    let s = mains.s in
    let s' = d'.s in
    (e ≡ ok)
    × (s'.p ≡ milli_float.mul (milli_float.mul s'.vrms s'.irms) s.pf)
    × (s'.kwh ≡ milli_float.add s.kwh (milli_float.div s'.p (whole 3600000)))
    × (s'.kwh_day ≡ milli_float.add s.kwh_day (milli_float.div s'.p (whole 3600000)))
    × (s'.alarm ≡ trips_on s')
    × (s'.trips ≡ (if s'.alarm then add32 s.trips 1 else s.trips))
    × (d'.gpio ≡ (gpio_write pin_led s'.alarm mains.gpio).1)
    × (out'.alarm ≡ s'.alarm)
energy_measure_lem_example = energy_measure_lem blank reply mains

abbrev bad_factor : In Milli
bad_factor = record blank { f = set_at blank.f 0 (pos 20000) }
