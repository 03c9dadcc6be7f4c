-- ===== src/UseCase/ColdChain.antt =====
-- The third part of components/iot_usecases/src/iot_uc_field.c: the cold chain, whose state is `cd`.
pub mod Alarm
use esp32_iot_products.CText.{Text, codes}
use esp32_iot_products.UseCase.Json.{read_f32, read_i32, holds}
use esp32_iot_products.UseCase.Types.{UcId, In, Out, set_at, Handler, show_b, zero_in, out_ok}
use esp32_iot_products.UseCase.Reply.{member, reply_text}
use esp32_iot_products.Core.Err.{Err, ok}
use esp32_iot_products.Core.Float.{Float, le, whole}
use esp32_iot_products.Prelude.Int.{pos, nonzero}
use esp32_iot_products.Prelude.{[], ◌∷◌, Bool, true, ◌&&◌, ◌||◌, false, not, if◌then◌else◌}

-- `cold_st_t`
pub record Cold (F : Type 0) : Type 0 where
  pub t : F
  pub rh : F
  pub t_max : F
  pub minutes_hot : F
  pub door : Bool
  pub alarm : Bool
  pub acked : Bool

module _ {F : Type 0} ⦃fl : Float F⦄ where
  unfoldable pub cold_init : Cold F
  cold_init = record {
    t = whole 0;
    rh = whole 55;
    t_max = whole 8;
    minutes_hot = whole 0;
    door = false;
    alarm = false;
    acked = false;
  }

  cold_text : Cold F → UcId → Text
  cold_text cd id = reply_text 260 id (
      member (codes "t_c") (fl.fixed 2 cd.t)
      ∷ member (codes "rh") (fl.fixed 1 cd.rh)
      ∷ member (codes "door") (show_b cd.door)
      ∷ member (codes "alarm") (show_b cd.alarm)
      ∷ member (codes "exc_min") (fl.fixed 1 cd.minutes_hot)
      ∷ member (codes "acked") (show_b cd.acked)
      ∷ [])

  cd_json : Cold F → Out F → UcId → Out F
  cd_json cd out id =
      let out' = out_ok out id (cold_text cd id) in
      record out' { alarm = cd.alarm; f = set_at out'.f 0 cd.t }

  cd_reply : UcId → Out F → Cold F → Err × Out F × Cold F
  cd_reply id out cd = (ok, cd_json cd out id, cd)

  -- `cd.t > cd.t_max`
  pub is_hot : Cold F → Bool
  is_hot cd = fl.gt cd.t cd.t_max

  pub cold_sample : Handler F (Cold F)
  cold_sample inp out cd =
      let rh' = if fl.gt (inp.f 1) (whole 0) then inp.f 1 else cd.rh in
      let cd' = record cd {
        t = read_f32 inp (codes "t_c") (inp.f 0);
        rh = read_f32 inp (codes "rh") rh';
      } in
      cd_reply UcId.cold_sample out (record cd' { alarm = is_hot cd' || cd'.door })

  pub cold_excursion : Handler F (Cold F)
  cold_excursion inp out cd =
      let minutes = fl.add cd.minutes_hot (fl.div (whole 1) (whole 60)) in
      cd_reply UcId.cold_excursion out
        (if is_hot cd then record cd { minutes_hot = minutes; alarm = true; acked = false } else cd)

  pub cold_door : Handler F (Cold F)
  cold_door inp out cd =
      let door' =
        if holds inp (codes "door")
        then nonzero (read_i32 inp (codes "door") (pos 0))
        else inp.b 0 in
      cd_reply UcId.cold_door out
        (record cd { door = door'; alarm = if door' then true else cd.alarm })

  pub cold_ack : Handler F (Cold F)
  cold_ack inp out cd =
      let quiet = not cd.door && le cd.t cd.t_max in
      cd_reply UcId.cold_ack out
        (record cd { acked = true; alarm = if quiet then false else cd.alarm })

  pub cold_datalog : Handler F (Cold F)
  cold_datalog inp out cd = cd_reply UcId.cold_datalog out cd

  pub cold_on_sample : F → F → Bool → Out F → Cold F → Err × Out F × Cold F
  cold_on_sample t_c rh door_open out cd =
      let blank : In F = zero_in in
      let inp : In F = record blank {
        f = set_at (set_at blank.f 0 t_c) 1 rh;
        b = set_at blank.b 0 door_open;
      } in
      let (e₁, out₁, cd₁) = cold_sample inp out cd in
      let (e₂, out₂, cd₂) = cold_door inp out₁ cd₁ in cold_excursion inp out₂ cd₂
