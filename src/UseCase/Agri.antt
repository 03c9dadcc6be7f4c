-- ===== src/UseCase/Agri.antt =====
-- The second part of components/iot_usecases/src/iot_uc_field.c: irrigation, whose state is `ag`,
-- with the PWM driver that runs the pump.
pub mod Pump
use esp32_iot_products.CText.{Text, codes, show_d}
use esp32_iot_products.UseCase.Json.{read_i32, holds}
use esp32_iot_products.UseCase.Types.{UcId, In, Out, set_at, Handler, show_b, zero_in, out_ok}
use esp32_iot_products.UseCase.Reply.{member, reply_text}
use esp32_iot_products.Core.Err.{Err, ok, denied}
use esp32_iot_products.Core.Float.{Float}
use esp32_iot_products.Prelude.Int.{ℤ, pos, ltb_ℤ, nonzero, of_bool}
use esp32_iot_products.Drivers.Pwm.{Pwm, pwm_set_duty}
use esp32_iot_products.Prelude.{none, ℕ, [], ◌∷◌, Bool, true, ◌&&◌, false, not, if◌then◌else◌, some}

-- `agri_st_t`
pub record Agri : Type 0 where
  pub moist : ℤ
  pub pump : ℤ
  pub thresh : ℤ
  pub window_min : ℤ
  pub inhibit : Bool

-- The static state that the file's functions reach, and the duty that the pump's output was last
-- set to.
pub record AgriDev : Type 0 where
  pub ag : Agri
  pub pwm : Pwm
  pub duty : ℕ

unfoldable pub agri_init : Agri
agri_init = record {
  moist = pos 0;
  pump = pos 0;
  thresh = pos 30;
  window_min = pos 15;
  inhibit = false;
}

agri_text : Agri → UcId → Text
agri_text ag id = reply_text 220 id (
    member (codes "moist_pct") (show_d ag.moist)
    ∷ member (codes "pump") (show_d ag.pump)
    ∷ member (codes "thresh") (show_d ag.thresh)
    ∷ member (codes "inhibit") (show_b ag.inhibit)
    ∷ [])

-- `iot_pwm_set_duty`, with the duty that the output then has.
drive : ℕ → AgriDev → AgriDev
drive duty d = elim (pwm_set_duty duty d.pwm).1 [ none ↦ d | some v ↦ record d { duty = v } ]

pub pump_hw : Bool → AgriDev → AgriDev
pump_hw on d =
    let ag = d.ag in
    let on' = on && not ag.inhibit in
    drive (if on' then 512 else 0) (record d { ag = record ag { pump = of_bool on' } })

with_agri : Agri → AgriDev → AgriDev
with_agri ag d = record d { ag = ag }

module _ {F : Type 0} ⦃fl : Float F⦄ where
  ag_json : Agri → Out F → UcId → Out F
  ag_json ag out id =
      let out' = out_ok out id (agri_text ag id) in
      record out' { i = set_at (set_at out'.i 0 ag.moist) 1 ag.pump }

  ag_reply : UcId → Out F → AgriDev → Err × Out F × AgriDev
  ag_reply id out d = (ok, ag_json d.ag out id, d)

  pub agri_soil : Handler F AgriDev
  agri_soil inp out d =
      let ag = d.ag in
      let m = if holds inp (codes "moist") then read_i32 inp (codes "moist") (pos 0) else inp.i 0 in
      ag_reply UcId.agri_soil out (with_agri (record ag { moist = m }) d)

  pub agri_pump_auto : Handler F AgriDev
  agri_pump_auto inp out d =
      ag_reply UcId.agri_pump_auto out (pump_hw (ltb_ℤ d.ag.moist d.ag.thresh) d)

  pub agri_pump_on : Handler F AgriDev
  agri_pump_on inp out d =
      let d' = pump_hw true d in
      (if d'.ag.inhibit then denied else ok, ag_json d'.ag out UcId.agri_pump_on, d')

  pub agri_pump_off : Handler F AgriDev
  agri_pump_off inp out d = ag_reply UcId.agri_pump_off out (pump_hw false d)

  pub agri_schedule : Handler F AgriDev
  agri_schedule inp out d =
      let ag = d.ag in
      let w =
        if holds inp (codes "window_min")
        then read_i32 inp (codes "window_min") ag.window_min
        else ag.window_min in
      ag_reply UcId.agri_schedule out (with_agri (record ag { window_min = w }) d)

  pub agri_inhibit : Handler F AgriDev
  agri_inhibit inp out d =
      let ag = d.ag in
      let inh =
        if holds inp (codes "inhibit") then read_i32 inp (codes "inhibit") (pos 1) else pos 1 in
      let d' = with_agri (record ag { inhibit = nonzero inh }) d in
      ag_reply UcId.agri_inhibit out (if d'.ag.inhibit then pump_hw false d' else d')

  pub agri_on_sample : ℤ → Out F → AgriDev → Err × Out F × AgriDev
  agri_on_sample moist_pct out d =
      let blank : In F = zero_in in
      let inp : In F = record blank { i = set_at blank.i 0 moist_pct } in
      let (e, out', d') = agri_soil inp out d in agri_pump_auto inp out' d'
