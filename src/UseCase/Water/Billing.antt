-- ===== src/UseCase/Water/Billing.antt =====
-- The totalizers of components/iot_usecases/src/iot_uc_water.c.
use esp32_iot_products.UseCase.Water.{
  Water, pulses_of, count_litres, set_tank, meter_update, WaterDev, water_leak, water_burst,
  water_meter, water_set_k, apply_valve, with_water, water_reply,
}
use esp32_iot_products.UseCase.Types.{In, Out}
use esp32_iot_products.Core.Float.{Float, whole, lt}
use esp32_iot_products.Prelude.Int.{pos}
use esp32_iot_products.Prelude.{arith, if◌then◌else◌, ◌≡◌, ℕ, ◌-◌, ◌⊎◌, false}
use esp32_iot_products.Core.Err.{ok, invalid_arg}

module _ {F : Type 0} ⦃fl : Float F⦄ where
  -- What the pulse counter adds: nothing where it went back.
  abbrev pub pulse_step : In F → Water F → ℕ
  pulse_step inp w = pulses_of inp - w.last_pulses

  meter_update-totals :
      (inp : In F) (w : Water F)
      → let w' = meter_update inp w in
        let delta =
          if fl.gt w.k_ppl (fl.lit 1 100)
          then fl.div (fl.of_int (pos (pulse_step inp w))) w.k_ppl
          else whole 0 in
        (w'.last_pulses ≡ pulses_of inp)
        × (w'.flow_lpm ≡ fl.mul delta (whole 60))
        × (w'.liters ≡ (if w.frozen then w.liters else fl.add w.liters delta))
        × (w'.billing ≡ (if w.frozen then w.billing else fl.add w.billing delta))
  unfolding meter_update set_tank count_litres
  meter_update-totals inp w = ground arith

  -- A meter sample stores the counter, takes the flow from the litres of the step (per minute, for a
  -- sample a second), and adds those litres to both totals; while the register is frozen both stay
  -- as they are. A counter that went back adds nothing, and a k-factor up to 0.01 counts no litres.
  pub water_meter-totals :
      (inp : In F) (out : Out F) (d : WaterDev F)
      → let w = d.w in
        let w' = (water_meter inp out d).2.w in
        let delta =
          if fl.gt w.k_ppl (fl.lit 1 100)
          then fl.div (fl.of_int (pos (pulse_step inp w))) w.k_ppl
          else whole 0 in
        (w'.last_pulses ≡ pulses_of inp)
        × (w'.flow_lpm ≡ fl.mul delta (whole 60))
        × (w'.liters ≡ (if w.frozen then w.liters else fl.add w.liters delta))
        × (w'.billing ≡ (if w.frozen then w.billing else fl.add w.billing delta))
  unfolding water_meter water_leak water_burst water_reply with_water apply_valve
  water_meter-totals inp out d = ground (arith, meter_update-totals inp d.w)

  -- A k-factor outside 0.1 to 1000 is refused and the state left alone; one that is accepted is
  -- stored, and is not outside.
  pub water_set_k_lem :
      (inp : In F) (out : Out F) (d : WaterDev F)
      → let (e, out', d') = water_set_k inp out d in
        ((e ≡ invalid_arg) × (d' ≡ d))
        ⊎ ((e ≡ ok)
            × (lt d'.w.k_ppl (fl.lit 1 10) ≡ false)
            × (fl.gt d'.w.k_ppl (whole 1000) ≡ false))
  unfolding water_set_k water_reply with_water
  water_set_k_lem inp out d = ground arith
