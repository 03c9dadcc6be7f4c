-- ===== src/UseCase/Water/Valve.antt =====
-- The valve of components/iot_usecases/src/iot_uc_water.c: what closes it, and what may open it.
use esp32_iot_products.UseCase.Water.{
  Water, WaterDev, water_leak, water_burst, water_meter, water_valve_open, water_valve_close,
  water_tamper, water_billing, water_set_k, water_get_state, water_json, apply_valve, with_water,
  water_reply, count_litres, set_tank, meter_update, water_on_sample,
}
use esp32_iot_products.UseCase.Types.{In, Out, Preserves}
use esp32_iot_products.Core.Err.{ok}
use esp32_iot_products.Core.Float.{Float}
use esp32_iot_products.Prelude.{◌&&◌, false, arith, ◌≡◌, refl, true, ◌||◌, not, ℕ}
use esp32_iot_products.Prelude.Int.{ℤ}

module _ {F : Type 0} ⦃fl : Float F⦄ where
  -- A meter that was tampered with has its valve shut.
  pub record TamperShut (d : WaterDev F) : Type 0 where
    pub shut : d.w.tamper ≡ true → d.w.valve_open ≡ false

  pub water_leak-TamperShut : Preserves TamperShut water_leak
  unfolding water_leak water_reply with_water
  water_leak-TamperShut inp out d v = record { shut = v.shut }

  pub water_burst-TamperShut : Preserves TamperShut water_burst
  unfolding water_burst water_reply with_water apply_valve
  water_burst-TamperShut inp out d v = ground (arith, v.shut)

  meter_update-keeps :
      (inp : In F) (w : Water F)
      → let w' = meter_update inp w in
        (w'.tamper ≡ w.tamper) × (w'.valve_open ≡ w.valve_open) × (w'.frozen ≡ w.frozen)
  unfolding meter_update set_tank count_litres
  meter_update-keeps inp w = ground arith

  pub water_meter-TamperShut : Preserves TamperShut water_meter
  unfolding water_meter water_reply with_water
  water_meter-TamperShut inp out d v =
      let d₀ : WaterDev F = with_water (meter_update inp d.w) d in
      let v₀ : TamperShut d₀ = record {
        shut = ground (arith, v.shut, meter_update-keeps inp d.w);
      } in
      let v₁ = water_leak-TamperShut inp out d₀ v₀ in
      water_burst-TamperShut inp (water_leak inp out d₀).1 (water_leak inp out d₀).2 v₁

  pub water_valve_open-TamperShut : Preserves TamperShut water_valve_open
  unfolding water_valve_open water_reply apply_valve
  water_valve_open-TamperShut inp out d v = ground (arith, v.shut)

  pub water_valve_close-TamperShut : Preserves TamperShut water_valve_close
  unfolding water_valve_close water_reply apply_valve
  water_valve_close-TamperShut inp out d v = record { shut = λ t. refl }

  pub water_tamper-TamperShut : Preserves TamperShut water_tamper
  unfolding water_tamper with_water apply_valve
  water_tamper-TamperShut inp out d v = record { shut = λ t. refl }

  pub water_billing-TamperShut : Preserves TamperShut water_billing
  unfolding water_billing water_reply with_water
  water_billing-TamperShut inp out d v = record { shut = v.shut }

  pub water_set_k-TamperShut : Preserves TamperShut water_set_k
  unfolding water_set_k water_reply with_water
  water_set_k-TamperShut inp out d v = ground (arith, v.shut)

  pub water_get_state-TamperShut : Preserves TamperShut water_get_state
  unfolding water_get_state water_reply
  water_get_state-TamperShut inp out d v = v

  -- After a meter sample the valve is open exactly if it was open and the flow is within the burst
  -- limit; the leak flag is that of a flow above a tenth of a litre per minute through the valve as
  -- it stood before the burst test; and the alarm of the reply is the disjunction of the three flags.
  pub water_meter_lem :
      (inp : In F) (out : Out F) (d : WaterDev F)
      → let (e, out', d') = water_meter inp out d in
        let w' = d'.w in
        (e ≡ ok)
        × (w'.burst ≡ fl.gt w'.flow_lpm w'.burst_lpm)
        × (w'.valve_open ≡ (d.w.valve_open && not w'.burst))
        × (w'.leak ≡ (fl.gt w'.flow_lpm (fl.lit 1 10) && not d.w.valve_open))
        × (out'.alarm ≡ (w'.leak || w'.burst || w'.tamper))
  unfolding water_meter water_leak water_burst water_reply water_json with_water apply_valve
  water_meter_lem inp out d = ground (arith, meter_update-keeps inp d.w)

  pub water_on_sample-TamperShut :
      (n : ℕ) (mv : ℤ) → Preserves TamperShut (λ inp. water_on_sample n mv)
  unfolding water_on_sample
  water_on_sample-TamperShut n mv inp out d safe = water_meter-TamperShut _ out d safe
