-- ===== src/UseCase/Predictive.antt =====
-- The second half of components/iot_usecases/src/iot_uc_industrial.c: predictive maintenance, whose
-- state is `pm`.
pub mod Features
use esp32_iot_products.CText.{Text, codes, show_d}
use esp32_iot_products.UseCase.Json.{read_f32, holds}
use esp32_iot_products.UseCase.Types.{UcId, In, Out, set_at, Handler, zero_in, out_ok}
use esp32_iot_products.UseCase.Reply.{member, reply_text}
use esp32_iot_products.Core.Err.{Err, ok}
use esp32_iot_products.Core.Float.{Float, lt, whole}
use esp32_iot_products.Prelude.Int.{ℤ, pos, ltb_ℤ}
use esp32_iot_products.Prelude.{[], if◌then◌else◌, ◌∷◌}

-- `pm_st_t`
pub record Pm (F : Type 0) : Type 0 where
  pub rms : F
  pub peak : F
  pub crest : F
  pub ema : F
  pub health : ℤ

module _ {F : Type 0} ⦃fl : Float F⦄ where
  unfoldable pub pm_init : Pm F
  pm_init = record { rms = whole 0; peak = whole 0; crest = whole 0; ema = whole 0; health = pos 0 }

  pm_text : Pm F → UcId → Text
  pm_text pm id = reply_text 220 id (
      member (codes "rms") (fl.fixed 3 pm.rms)
      ∷ member (codes "peak") (fl.fixed 3 pm.peak)
      ∷ member (codes "crest") (fl.fixed 3 pm.crest)
      ∷ member (codes "health") (show_d pm.health)
      ∷ member (codes "ema") (fl.fixed 3 pm.ema)
      ∷ [])

  pm_json : Pm F → Out F → UcId → Out F
  pm_json pm out id =
      let out' = out_ok out id (pm_text pm id) in
      record out' {
        f = set_at out'.f 0 pm.rms;
        i = set_at out'.i 0 pm.health;
        alarm = ltb_ℤ pm.health (pos 50);
      }

  -- The bands of the health score.
  pub health_of : F → ℤ
  health_of rms =
      if lt rms (whole 2)
      then pos 100
      else (if lt rms (whole 5) then pos 70 else (if lt rms (whole 8) then pos 40 else pos 15))

  pub pm_health : Handler F (Pm F)
  pm_health inp out pm =
      let pm' = record pm { health = health_of pm.rms } in
      let out' = pm_json pm' out UcId.pm_health in (ok, record out' { id = UcId.pm_features }, pm')

  -- What a sample of magnitude `ax` does to the features.
  pm_update : F → Pm F → Pm F
  pm_update ax pm =
      let rms' = fl.add (fl.mul pm.rms (fl.lit 9 10)) (fl.mul ax (fl.lit 1 10)) in
      let peak' = if fl.gt ax pm.peak then ax else pm.peak in
      record pm {
        rms = rms';
        peak = peak';
        crest = if fl.gt rms' (fl.lit 1 100) then fl.div peak' rms' else whole 0;
        ema = fl.add (fl.mul pm.ema (fl.lit 98 100)) (fl.mul rms' (fl.lit 2 100));
      }

  pub pm_features : Handler F (Pm F)
  pm_features inp out pm =
      let x =
        if holds inp (codes "accel") then read_f32 inp (codes "accel") (inp.f 0) else inp.f 0 in
      pm_health inp out (pm_update (fl.fabs x) pm)

  pub pm_on_sample : F → Out F → Pm F → Err × Out F × Pm F
  pm_on_sample accel out pm =
      let blank : In F = zero_in in pm_features (record blank { f = set_at blank.f 0 accel }) out pm

  pub pm_trend : Handler F (Pm F)
  pm_trend inp out pm =
      let out' = pm_json pm out UcId.pm_trend in
      (
        ok,
        record out' { alarm = fl.gt pm.rms (fl.add (fl.mul pm.ema (fl.lit 15 10)) (fl.lit 5 10)) },
        pm,
      )

  pub pm_reset_peak : Handler F (Pm F)
  pm_reset_peak inp out pm =
      let pm' = record pm { peak = whole 0 } in (ok, pm_json pm' out UcId.pm_reset_peak, pm')
