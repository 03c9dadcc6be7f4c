-- ===== src/UseCase/Agri/Pump.antt =====
-- The pump of components/iot_usecases/src/iot_uc_field.c and its inhibition.
use esp32_iot_products.UseCase.Json.{has_key, holds}
use esp32_iot_products.UseCase.Agri.{
  AgriDev, agri_soil, agri_pump_auto, agri_pump_on, agri_pump_off, agri_schedule, agri_inhibit,
  agri_on_sample, drive, pump_hw, with_agri, ag_reply,
}
use esp32_iot_products.UseCase.Types.{In, Out, zero_in, Preserves}
use esp32_iot_products.Core.Err.{denied}
use esp32_iot_products.Core.Float.{Float}
use esp32_iot_products.Prelude.Int.{ℤ, pos, ltb_ℤ, of_bool}
use esp32_iot_products.Drivers.Pwm.{clamp_duty, pwm_set_duty}
use esp32_iot_products.Prelude.{◌≡◌, not, ◌&&◌, if◌then◌else◌, ltb, arith, Bool, true, false, ◌↔◌}

-- While the pump is inhibited it is off; and while it is off its output has no duty, once the PWM
-- driver is up.
pub record PumpSafe (d : AgriDev) : Type 0 where
  pub off : d.ag.inhibit ≡ true → d.ag.pump ≡ pos 0
  pub still : d.pwm.init ≡ true → d.ag.pump ≡ pos 0 → d.duty ≡ 0

pump_hw-PumpSafe : (on : Bool) (d : AgriDev) → PumpSafe d → PumpSafe (pump_hw on d)
unfolding pump_hw drive pwm_set_duty clamp_duty
pump_hw-PumpSafe on d v = ground (arith, v.off, v.still)

-- What `pump_hw` does to an output whose driver is up: it runs exactly if it is asked to and not
-- inhibited, at duty 512 or at the largest one.
pub pump_hw_lem :
    (on : Bool) (d : AgriDev)
    → d.pwm.init ≡ true
    → let d' = pump_hw on d in
      (d'.ag.pump ≡ of_bool (on && not d.ag.inhibit))
      × (d'.duty ≡ (
          if on && not d.ag.inhibit
          then (if ltb d.pwm.duty_max 512 then d.pwm.duty_max else 512)
          else 0))
unfolding pump_hw drive pwm_set_duty clamp_duty
pump_hw_lem on d h = ground arith

module _ {F : Type 0} ⦃fl : Float F⦄ where
  pub agri_soil-PumpSafe : Preserves {F = F} PumpSafe agri_soil
  unfolding agri_soil ag_reply with_agri
  agri_soil-PumpSafe inp out d v = record { off = v.off; still = v.still }

  pub agri_pump_auto-PumpSafe : Preserves {F = F} PumpSafe agri_pump_auto
  unfolding agri_pump_auto ag_reply
  agri_pump_auto-PumpSafe inp out d v = pump_hw-PumpSafe _ d v

  pub agri_pump_on-PumpSafe : Preserves {F = F} PumpSafe agri_pump_on
  unfolding agri_pump_on
  agri_pump_on-PumpSafe inp out d v = pump_hw-PumpSafe true d v

  pub agri_pump_off-PumpSafe : Preserves {F = F} PumpSafe agri_pump_off
  unfolding agri_pump_off ag_reply
  agri_pump_off-PumpSafe inp out d v = pump_hw-PumpSafe false d v

  pub agri_schedule-PumpSafe : Preserves {F = F} PumpSafe agri_schedule
  unfolding agri_schedule ag_reply with_agri
  agri_schedule-PumpSafe inp out d v = record { off = v.off; still = v.still }

  pub agri_inhibit-PumpSafe : Preserves {F = F} PumpSafe agri_inhibit
  unfolding agri_inhibit ag_reply with_agri pump_hw drive pwm_set_duty clamp_duty
  agri_inhibit-PumpSafe inp out d v = ground (arith, v.off, v.still)

  -- A soil sample runs the pump exactly if the moisture is below the threshold and the pump is not
  -- inhibited; a manual start is denied exactly if the pump is inhibited, and runs it otherwise.
  pub agri_pump_lem :
      (moist : ℤ) (inp : In F) (out : Out F) (d : AgriDev)
      → let d' = (agri_on_sample moist out d).2 in
        let (e, out'', d'') = agri_pump_on inp out d in
        (d'.ag.moist ≡ moist)
        × (d'.ag.pump ≡ of_bool (ltb_ℤ moist d.ag.thresh && not d.ag.inhibit))
        × ((e ≡ denied) ↔ (d.ag.inhibit ≡ true))
        × (d''.ag.pump ≡ of_bool (not d.ag.inhibit))
  unfolding agri_on_sample agri_soil agri_pump_auto agri_pump_on ag_reply with_agri pump_hw drive
      pwm_set_duty clamp_duty holds has_key zero_in
  agri_pump_lem moist inp out d = ground arith

  pub agri_on_sample-PumpSafe : (m : ℤ) → Preserves {F = F} PumpSafe (λ inp. agri_on_sample m)
  unfolding agri_on_sample
  agri_on_sample-PumpSafe m inp out d safe =
      agri_pump_auto-PumpSafe _ _ _ (agri_soil-PumpSafe _ out d safe)
