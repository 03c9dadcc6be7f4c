-- ===== src/UseCase/Tracker.antt =====
-- The first part of components/iot_usecases/src/iot_uc_field.c: the asset tracker, whose state is
-- `tr`.
pub mod Bounds
use esp32_iot_products.CText.{Text, codes, show_u, show_d}
use esp32_iot_products.UseCase.Json.{read_i32, holds}
use esp32_iot_products.UseCase.Types.{
  UcId, In, Out, set_at, Handler, show_b, zero_in, out_ok, out_err,
}
use esp32_iot_products.UseCase.Reply.{member, reply_text}
use esp32_iot_products.Core.Err.{Err, ok, invalid_arg}
use esp32_iot_products.Core.Float.{Float}
use esp32_iot_products.Prelude.Int.{ℤ, pos, negsuc, ltb_ℤ, leb_ℤ, eqb_ℤ, nonzero, of_bool}
use esp32_iot_products.Prelude.Words.{u32_of_int, int_of_u32}
use esp32_iot_products.Prelude.{ℕ, [], ◌∷◌, Bool, ◌||◌, false, if◌then◌else◌}

-- `trk_st_t`
pub record Tracker : Type 0 where
  pub rssi : ℤ
  pub batt_mv : ℤ
  pub moving : Bool
  pub geo_inside : ℤ
  pub sleep_s : ℕ

unfoldable pub trk_init : Tracker
trk_init = record {
  rssi = negsuc 61;
  batt_mv = pos 3900;
  moving = false;
  geo_inside = pos 1;
  sleep_s = 30;
}

trk_text : Tracker → UcId → Text
trk_text tr id = reply_text 240 id (
    member (codes "rssi_proxy") (show_d tr.rssi)
    ∷ member (codes "moving") (show_b tr.moving)
    ∷ member (codes "batt_mv") (show_d tr.batt_mv)
    ∷ member (codes "geo_inside") (show_d tr.geo_inside)
    ∷ member (codes "sleep_s") (show_u tr.sleep_s)
    ∷ [])

module _ {F : Type 0} ⦃fl : Float F⦄ where
  tr_json : Tracker → Out F → UcId → Out F
  tr_json tr out id =
      let out' = out_ok out id (trk_text tr id) in
      record out' { alarm = ltb_ℤ tr.batt_mv (pos 3300) || eqb_ℤ tr.geo_inside (pos 0) }

  pub trk_beacon : Handler F Tracker
  trk_beacon inp out tr =
      let tr' = if nonzero (inp.i 0) then record tr { rssi = inp.i 0 } else tr in
      (ok, tr_json tr' out UcId.trk_beacon, tr')

  pub trk_motion : Handler F Tracker
  trk_motion inp out tr =
      let moving' =
        if holds inp (codes "moving")
        then nonzero (read_i32 inp (codes "moving") (pos 0))
        else inp.b 0 in
      let tr' = record tr { moving = moving' } in (ok, tr_json tr' out UcId.trk_motion, tr')

  -- Two sources of the battery's voltage: the argument, then the JSON.
  batt_of : In F → Tracker → Tracker
  batt_of inp tr =
      let given = if ltb_ℤ (pos 0) (inp.i 1) then inp.i 1 else tr.batt_mv in
      record tr {
        batt_mv =
            if holds inp (codes "batt_mv") then read_i32 inp (codes "batt_mv") (pos 0) else given;
      }

  pub trk_batt : Handler F Tracker
  trk_batt inp out tr =
      let tr' = batt_of inp tr in
      let out' = tr_json tr' out UcId.trk_batt_low in
      (ok, record out' { alarm = ltb_ℤ tr'.batt_mv (pos 3300) }, tr')

  pub trk_geo : Handler F Tracker
  trk_geo inp out tr =
      let lim =
        if holds inp (codes "rssi_lim")
        then read_i32 inp (codes "rssi_lim") (pos 0)
        else negsuc 89 in
      let tr' = record tr { geo_inside = of_bool (leb_ℤ lim tr.rssi) } in
      (ok, tr_json tr' out UcId.trk_geofence, tr')

  -- The interval that the command asks for, or the present one.
  sleep_of : In F → Tracker → ℤ
  sleep_of inp tr =
      let now = int_of_u32 tr.sleep_s in
      if holds inp (codes "sleep_s")
      then read_i32 inp (codes "sleep_s") now
      else (if ltb_ℤ (pos 0) (inp.i 0) then inp.i 0 else now)

  pub trk_sleep : Handler F Tracker
  trk_sleep inp out tr =
      let s = sleep_of inp tr in
      let tr' = record tr { sleep_s = u32_of_int s } in
      if ltb_ℤ s (pos 5) || ltb_ℤ (pos 3600) s
      then (invalid_arg, out_err out UcId.trk_sleep invalid_arg, tr)
      else (ok, tr_json tr' out UcId.trk_sleep, tr')

  pub trk_on_sample : ℤ → ℤ → Bool → Out F → Tracker → Err × Out F × Tracker
  trk_on_sample rssi batt_mv moving out tr =
      let blank : In F = zero_in in
      let inp : In F = record blank {
        i = set_at (set_at blank.i 0 rssi) 1 batt_mv;
        b = set_at blank.b 0 moving;
      } in
      let (e₁, out₁, tr₁) = trk_beacon inp out tr in
      let (e₂, out₂, tr₂) = trk_motion inp out₁ tr₁ in trk_batt inp out₂ tr₂
