-- ===== src/UseCase/Energy/Scales.antt =====
-- The settings of components/iot_usecases/src/iot_uc_energy.c.
use esp32_iot_products.UseCase.Energy.{
  EnergyDev, bad_scale, energy_calibrate, energy_pf, with_energy, energy_reply, pick_pos, scales_of,
}
use esp32_iot_products.UseCase.Types.{In, Out}
use esp32_iot_products.Core.Err.{ok, invalid_arg}
use esp32_iot_products.Core.Float.{Float, lt, whole}
use esp32_iot_products.Prelude.{◌≡◌, arith, ◌||◌, true, ◌⊎◌, none, false, ◌↔◌}

module _ {F : Type 0} ⦃fl : Float F⦄ where
  -- A calibration is refused exactly when a scale factor that it has left in the state lies outside
  -- 0.1 to 10: the refusal keeps the bad factor.
  pub energy_calibrate-keeps_bad :
      (inp : In F) (out : Out F) (d : EnergyDev F)
      → let (e, out', d') = energy_calibrate inp out d in
        (e ≡ invalid_arg) ↔ ((bad_scale d'.s.v_scale || bad_scale d'.s.i_scale) ≡ true)
  unfolding energy_calibrate energy_reply
  energy_calibrate-keeps_bad inp out d = ground arith

  -- With no JSON, a positive factor for the voltage that lies outside 0.1 to 10 is refused and
  -- stored all the same.
  pub energy_calibrate-stores_refused :
      (inp : In F) (out : Out F) (d : EnergyDev F)
      → inp.json ≡ none
      → fl.gt (inp.f 0) (whole 0) ≡ true
      → bad_scale (inp.f 0) ≡ true
      → let (e, out', d') = energy_calibrate inp out d in
        (e ≡ invalid_arg) × (d'.s.v_scale ≡ inp.f 0)
  unfolding energy_calibrate energy_reply scales_of with_energy pick_pos
  energy_calibrate-stores_refused inp out d n p b = ground arith

  -- A power factor outside 0.5 to 1 is refused and the state left alone; one that is accepted is
  -- stored, is not outside, and the power follows it.
  pub energy_pf_lem :
      (inp : In F) (out : Out F) (d : EnergyDev F)
      → let (e, out', d') = energy_pf inp out d in
        ((e ≡ invalid_arg) × (d' ≡ d))
        ⊎ ((e ≡ ok)
            × (lt d'.s.pf (fl.lit 5 10) ≡ false)
            × (fl.gt d'.s.pf (whole 1) ≡ false)
            × (d'.s.p ≡ fl.mul (fl.mul d.s.vrms d.s.irms) d'.s.pf))
  unfolding energy_pf energy_reply with_energy
  energy_pf_lem inp out d = ground arith
