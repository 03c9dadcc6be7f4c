-- ===== src/UseCase/Water.antt =====
-- components/iot_usecases/src/iot_uc_water.c: the water meter, whose state is `w`, with the GPIO
-- driver that holds the valve's pin.
pub mod Valve
pub mod Billing
use esp32_iot_products.CText.{Text, codes}
use esp32_iot_products.UseCase.Json.{read_f32, read_i32, holds}
use esp32_iot_products.UseCase.Types.{
  UcId, In, Out, set_at, Handler, show_b, zero_in, out_ok, out_err,
}
use esp32_iot_products.UseCase.Reply.{member, reply_text}
use esp32_iot_products.Core.Err.{Err, ok, invalid_arg, denied}
use esp32_iot_products.Core.Float.{Float, lt, whole}
use esp32_iot_products.Prelude.Int.{ℤ, pos, ltb_ℤ, nonzero}
use esp32_iot_products.Prelude.Words.{u32_of_int}
use esp32_iot_products.Drivers.Gpio.{Gpio, pin_pwm_out, gpio_write}
use esp32_iot_products.Prelude.{
  [], true, if◌then◌else◌, ℕ, ◌&&◌, Bool, ◌∷◌, not, ◌-◌, false, ◌||◌, leb,
}

-- `water_st_t`
pub record Water (F : Type 0) : Type 0 where
  pub k_ppl : F
  pub flow_lpm : F
  pub liters : F
  pub billing : F
  pub tank_pct : F
  pub burst_lpm : F
  pub last_pulses : ℕ
  pub valve_open : Bool
  pub leak : Bool
  pub burst : Bool
  pub tamper : Bool
  pub frozen : Bool

-- The static state that the file's functions reach: its own, and that of the GPIO driver.
pub record WaterDev (F : Type 0) : Type 0 where
  pub w : Water F
  pub gpio : Gpio

module _ {F : Type 0} ⦃fl : Float F⦄ where
  unfoldable pub water_init : Water F
  water_init = record {
    k_ppl = whole 2;
    flow_lpm = whole 0;
    liters = whole 0;
    billing = whole 0;
    tank_pct = whole 0;
    burst_lpm = whole 40;
    last_pulses = 0;
    valve_open = true;
    leak = false;
    burst = false;
    tamper = false;
    frozen = false;
  }

  water_text : Water F → UcId → Text
  water_text w id = reply_text 360 id (
      member (codes "flow_lpm") (fl.fixed 2 w.flow_lpm)
      ∷ member (codes "liters") (fl.fixed 3 w.liters)
      ∷ member (codes "billing") (fl.fixed 3 w.billing)
      ∷ member (codes "tank_pct") (fl.fixed 1 w.tank_pct)
      ∷ member (codes "valve") (show_b w.valve_open)
      ∷ member (codes "leak") (show_b w.leak)
      ∷ member (codes "burst") (show_b w.burst)
      ∷ member (codes "tamper") (show_b w.tamper)
      ∷ member (codes "frozen") (show_b w.frozen)
      ∷ [])

  water_json : Water F → Out F → UcId → Out F
  water_json w out id =
      let out' = out_ok out id (water_text w id) in
      record out' {
        f = set_at (set_at out'.f 0 w.flow_lpm) 1 w.liters;
        alarm = w.leak || w.burst || w.tamper;
      }

  pub water_valve_is_open : WaterDev F → Bool
  water_valve_is_open d = d.w.valve_open

  apply_valve : Bool → WaterDev F → WaterDev F
  apply_valve open_it d =
      let w = d.w in
      record {
        w = record w { valve_open = open_it };
        gpio = (gpio_write pin_pwm_out open_it d.gpio).1;
      }

  with_water : Water F → WaterDev F → WaterDev F
  with_water w d = record d { w = w }

  water_reply : UcId → Out F → WaterDev F → Err × Out F × WaterDev F
  water_reply id out d = (ok, water_json d.w out id, d)

  pub water_leak : Handler F (WaterDev F)
  water_leak inp out d =
      let w = d.w in
      let w' = record w { leak = fl.gt w.flow_lpm (fl.lit 1 10) && not w.valve_open } in
      water_reply UcId.water_leak out (with_water w' d)

  pub water_burst : Handler F (WaterDev F)
  water_burst inp out d =
      let w = d.w in
      let w' = record w { burst = fl.gt w.flow_lpm w.burst_lpm } in
      let d' = with_water w' d in
      water_reply UcId.water_burst out (if w'.burst then apply_valve false d' else d')

  -- `pulses`: from the JSON, or `in->u[0]`
  pub pulses_of : In F → ℕ
  pulses_of inp =
      if holds inp (codes "pulses")
      then u32_of_int (read_i32 inp (codes "pulses") (pos 0))
      else inp.u 0

  -- What the totalizers and the flow become after `d` more pulses.
  count_litres : ℕ → Water F → Water F
  count_litres d w =
      let delta =
        if fl.gt w.k_ppl (fl.lit 1 100) then fl.div (fl.of_int (pos d)) w.k_ppl else whole 0 in
      record w {
        flow_lpm = fl.mul delta (whole 60);
        liters = if w.frozen then w.liters else fl.add w.liters delta;
        billing = if w.frozen then w.billing else fl.add w.billing delta;
      }

  -- The tank's level in percent, at most 100.
  set_tank : ℤ → Water F → Water F
  set_tank tank_mv w =
      let pct = fl.mul (fl.div (fl.of_int tank_mv) (whole 3300)) (whole 100) in
      if ltb_ℤ (pos 0) tank_mv
      then record w { tank_pct = if fl.gt pct (whole 100) then whole 100 else pct }
      else w

  -- `iot_uc_water_meter` up to its call of `iot_uc_water_leak`
  meter_update : In F → Water F → Water F
  meter_update inp w =
      let pulses = pulses_of inp in
      let d = if leb w.last_pulses pulses then pulses - w.last_pulses else 0 in
      set_tank (inp.i 0) (count_litres d (record w { last_pulses = pulses }))

  pub water_meter : Handler F (WaterDev F)
  water_meter inp out d =
      let (e₁, out₁, d₁) = water_leak inp out (with_water (meter_update inp d.w) d) in
      let (e₂, out₂, d₂) = water_burst inp out₁ d₁ in water_reply UcId.water_meter out₂ d₂

  pub water_on_sample : ℕ → ℤ → Out F → WaterDev F → Err × Out F × WaterDev F
  water_on_sample pulses tank_mv out d =
      let blank : In F = zero_in in
      water_meter (record blank { u = set_at blank.u 0 pulses; i = set_at blank.i 0 tank_mv }) out d

  pub water_valve_open : Handler F (WaterDev F)
  water_valve_open inp out d =
      if d.w.tamper
      then (denied, out_err out UcId.water_valve_open denied, d)
      else water_reply UcId.water_valve_open out (apply_valve true d)

  pub water_valve_close : Handler F (WaterDev F)
  water_valve_close inp out d = water_reply UcId.water_valve_close out (apply_valve false d)

  pub water_tamper : Handler F (WaterDev F)
  water_tamper inp out d =
      let w = d.w in
      let d' = apply_valve false (with_water (record w { tamper = true }) d) in
      let out' = water_json d'.w out UcId.water_tamper in (ok, record out' { alarm = true }, d')

  pub water_billing : Handler F (WaterDev F)
  water_billing inp out d =
      let w = d.w in
      let freeze =
        if holds inp (codes "freeze") then read_i32 inp (codes "freeze") (pos 1) else pos 1 in
      water_reply UcId.water_billing_freeze out
        (with_water (record w { frozen = nonzero freeze }) d)

  pub water_set_k : Handler F (WaterDev F)
  water_set_k inp out d =
      let w = d.w in
      let k = if holds inp (codes "k") then read_f32 inp (codes "k") (inp.f 0) else inp.f 0 in
      if lt k (fl.lit 1 10) || fl.gt k (whole 1000)
      then (invalid_arg, out_err out UcId.water_set_k invalid_arg, d)
      else water_reply UcId.water_set_k out (with_water (record w { k_ppl = k }) d)

  pub water_get_state : Handler F (WaterDev F)
  water_get_state inp out d = water_reply UcId.water_get_state out d
