-- ===== src/UseCase/Energy.antt =====
-- components/iot_usecases/src/iot_uc_energy.c: the energy monitor, whose state is `s`, with the
-- GPIO driver that holds the alarm LED.
pub mod Alarms
pub mod Scales
use esp32_iot_products.CText.{Text, codes, show_u}
use esp32_iot_products.UseCase.Json.{read_f32, holds}
use esp32_iot_products.UseCase.Types.{
  UcId, In, Out, set_at, Handler, show_b, zero_in, out_ok, out_err,
}
use esp32_iot_products.UseCase.Reply.{member, reply_text}
use esp32_iot_products.Core.Err.{Err, ok, invalid_arg}
use esp32_iot_products.Core.Float.{Float, lt, whole}
use esp32_iot_products.Prelude.Int.{ℤ}
use esp32_iot_products.Prelude.Words.{add32, rem}
use esp32_iot_products.Drivers.Gpio.{Gpio, pin_led, gpio_write}
use esp32_iot_products.Prelude.{none, ℕ, [], ◌∷◌, Bool, ◌||◌, false, if◌then◌else◌, some}

-- `energy_st_t`
pub record Energy (F : Type 0) : Type 0 where
  pub v_scale : F
  pub i_scale : F
  pub vrms : F
  pub irms : F
  pub p : F
  pub pf : F
  pub kwh : F
  pub kwh_day : F
  pub over_w : F
  pub over_v : F
  pub under_v : F
  pub over_i : F
  pub trips : ℕ
  pub alarm : Bool

-- The static state that the file's functions reach: its own, and that of the GPIO driver.
pub record EnergyDev (F : Type 0) : Type 0 where
  pub s : Energy F
  pub gpio : Gpio

module _ {F : Type 0} ⦃fl : Float F⦄ where
  unfoldable pub energy_init : Energy F
  energy_init = record {
    v_scale = whole 1;
    i_scale = whole 1;
    vrms = whole 230;
    irms = fl.lit 4 10;
    p = whole 0;
    pf = fl.lit 95 100;
    kwh = whole 0;
    kwh_day = whole 0;
    over_w = whole 4000;
    over_v = whole 253;
    under_v = whole 207;
    over_i = whole 16;
    trips = 0;
    alarm = false;
  }

  energy_text : Energy F → UcId → Text
  energy_text s id = reply_text 320 id (
      member (codes "v") (fl.fixed 2 s.vrms)
      ∷ member (codes "i") (fl.fixed 3 s.irms)
      ∷ member (codes "p") (fl.fixed 1 s.p)
      ∷ member (codes "pf") (fl.fixed 3 s.pf)
      ∷ member (codes "e_kwh") (fl.fixed 5 s.kwh)
      ∷ member (codes "e_day") (fl.fixed 5 s.kwh_day)
      ∷ member (codes "alarm") (show_b s.alarm)
      ∷ member (codes "trips") (show_u s.trips)
      ∷ [])

  energy_json : Energy F → Out F → UcId → Out F
  energy_json s out id =
      let out' = out_ok out id (energy_text s id) in
      record out' {
        f = set_at (set_at (set_at (set_at out'.f 0 s.vrms) 1 s.irms) 2 s.p) 3 s.kwh;
        alarm = s.alarm;
        u = set_at out'.u 0 s.trips;
      }

  with_energy : Energy F → EnergyDev F → EnergyDev F
  with_energy s d = record d { s = s }

  energy_reply : UcId → Out F → EnergyDev F → Err × Out F × EnergyDev F
  energy_reply id out d = (ok, energy_json d.s out id, d)

  -- `s.alarm = b; if (s.alarm) s.trips++;`
  set_alarm : Bool → Energy F → Energy F
  set_alarm b s = record s { alarm = b; trips = if b then add32 s.trips 1 else s.trips }

  pub eval_alarms : Energy F → Energy F
  eval_alarms s =
      set_alarm
        (fl.gt s.p s.over_w
          || fl.gt s.vrms s.over_v
          || lt s.vrms s.under_v
          || fl.gt s.irms s.over_i)
        s

  pub energy_alarm : EnergyDev F → Bool
  energy_alarm d = d.s.alarm

  pub energy_led_alarm : Handler F (EnergyDev F)
  energy_led_alarm inp out d =
      energy_reply UcId.energy_led_alarm out
        (record d { gpio = (gpio_write pin_led d.s.alarm d.gpio).1 })

  -- The voltage and the current that the command gives.
  given_v : In F → F
  given_v inp = if holds inp (codes "v") then read_f32 inp (codes "v") (inp.f 0) else inp.f 0

  given_i : In F → F
  given_i inp = if holds inp (codes "v") then read_f32 inp (codes "i") (inp.f 1) else inp.f 1

  -- `s.vrms`, `s.irms` and `s.p`
  set_inputs : F → F → Energy F → Energy F
  set_inputs v i s =
      let vrms' = if fl.gt v (whole 0) then fl.mul v s.v_scale else s.vrms in
      let irms' = if fl.ge i (whole 0) then fl.mul i s.i_scale else s.irms in
      record s { vrms = vrms'; irms = irms'; p = fl.mul (fl.mul vrms' irms') s.pf }

  -- `s.kwh` and `s.kwh_day`
  add_energy : Energy F → Energy F
  add_energy s =
      let step = fl.div s.p (whole 3600000) in
      record s { kwh = fl.add s.kwh step; kwh_day = fl.add s.kwh_day step }

  pub energy_measure : Handler F (EnergyDev F)
  energy_measure inp out d =
      let s' = eval_alarms (add_energy (set_inputs (given_v inp) (given_i inp) d.s)) in
      let (e, out', d') = energy_led_alarm inp out (with_energy s' d) in
      energy_reply UcId.energy_measure out' d'

  pub energy_on_adc : ℤ → Out F → EnergyDev F → Err × Out F × EnergyDev F
  energy_on_adc mv out d =
      let blank : In F = zero_in in
      let v = fl.mul (fl.add (whole 80) (fl.mul (fl.of_int mv) (fl.lit 5 100))) d.s.v_scale in
      let i =
        fl.mul (fl.add (fl.lit 15 100) (fl.div (fl.of_int (rem mv 800)) (whole 2000)))
          d.s.i_scale in
      energy_measure (record blank { f = set_at (set_at (set_at blank.f 0 v) 1 i) 2 (whole 1000) })
        out d

  pub energy_accum : Handler F (EnergyDev F)
  energy_accum inp out d =
      let s = d.s in
      let given = if fl.gt (inp.f 0) (whole 0) then inp.f 0 else whole 1000 in
      let dt_ms = if holds inp (codes "dt_ms") then read_f32 inp (codes "dt_ms") given else given in
      let step = fl.mul (fl.mul s.p (fl.div dt_ms (whole 3600000000))) (whole 1000) in
      energy_reply UcId.energy_accum out (with_energy (record s { kwh = fl.add s.kwh step }) d)

  pub energy_over_power : Handler F (EnergyDev F)
  energy_over_power inp out d =
      energy_reply UcId.energy_over_power out
        (with_energy (set_alarm (fl.gt d.s.p d.s.over_w) d.s) d)

  -- The next three set the flag and leave the counter of trips alone.
  pub energy_over_voltage : Handler F (EnergyDev F)
  energy_over_voltage inp out d =
      let s = d.s in
      energy_reply UcId.energy_over_voltage out
        (with_energy (record s { alarm = fl.gt s.vrms s.over_v }) d)

  pub energy_under_voltage : Handler F (EnergyDev F)
  energy_under_voltage inp out d =
      let s = d.s in
      energy_reply UcId.energy_under_voltage out
        (with_energy (record s { alarm = lt s.vrms s.under_v }) d)

  pub energy_over_current : Handler F (EnergyDev F)
  energy_over_current inp out d =
      let s = d.s in
      energy_reply UcId.energy_over_current out
        (with_energy (record s { alarm = fl.gt s.irms s.over_i }) d)

  -- `if (x > 0) y = x;`
  pick_pos : F → F → F
  pick_pos x y = if fl.gt x (whole 0) then x else y

  limits_of : In F → Energy F → Energy F
  limits_of inp s = elim inp.json [
    | some json ↦ record s {
      over_w = read_f32 inp (codes "over_w") s.over_w;
      over_v = read_f32 inp (codes "over_v") s.over_v;
      under_v = read_f32 inp (codes "under_v") s.under_v;
      over_i = read_f32 inp (codes "over_i") s.over_i;
    }
    | none ↦ record s {
      over_w = pick_pos (inp.f 0) s.over_w;
      over_v = pick_pos (inp.f 1) s.over_v;
      under_v = pick_pos (inp.f 2) s.under_v;
      over_i = pick_pos (inp.f 3) s.over_i;
    }
  ]

  pub energy_set_limits : Handler F (EnergyDev F)
  energy_set_limits inp out d =
      energy_reply UcId.energy_set_limits out (with_energy (limits_of inp d.s) d)

  scales_of : In F → Energy F → Energy F
  scales_of inp s = elim inp.json [
    | some json ↦ record s {
      v_scale = read_f32 inp (codes "v_scale") s.v_scale;
      i_scale = read_f32 inp (codes "i_scale") s.i_scale;
    }
    | none ↦ record s {
      v_scale = pick_pos (inp.f 0) s.v_scale;
      i_scale = pick_pos (inp.f 1) s.i_scale;
    }
  ]

  -- `(x < 0.1f) || (x > 10.0f)`
  unfoldable pub bad_scale : F → Bool
  bad_scale x = lt x (fl.lit 1 10) || fl.gt x (whole 10)

  -- The scales are stored before they are checked.
  pub energy_calibrate : Handler F (EnergyDev F)
  energy_calibrate inp out d =
      let d' = with_energy (scales_of inp d.s) d in
      if bad_scale d'.s.v_scale || bad_scale d'.s.i_scale
      then (invalid_arg, out_err out UcId.energy_calibrate invalid_arg, d')
      else energy_reply UcId.energy_calibrate out d'

  pub energy_reset_daily : Handler F (EnergyDev F)
  energy_reset_daily inp out d =
      let s = d.s in
      energy_reply UcId.energy_reset_daily out (with_energy (record s { kwh_day = whole 0 }) d)

  pub energy_pf : Handler F (EnergyDev F)
  energy_pf inp out d =
      let s = d.s in
      let pf = if holds inp (codes "pf") then read_f32 inp (codes "pf") (inp.f 0) else inp.f 0 in
      if lt pf (fl.lit 5 10) || fl.gt pf (whole 1)
      then (invalid_arg, out_err out UcId.energy_pf invalid_arg, d)
      else energy_reply UcId.energy_pf out
          (with_energy (record s { pf = pf; p = fl.mul (fl.mul s.vrms s.irms) pf }) d)

  pub energy_get_state : Handler F (EnergyDev F)
  energy_get_state inp out d = energy_reply UcId.energy_get_state out d
