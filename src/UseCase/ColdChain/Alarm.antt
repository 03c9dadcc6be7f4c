-- ===== src/UseCase/ColdChain/Alarm.antt =====
-- The alarm of the cold chain of components/iot_usecases/src/iot_uc_field.c.
use esp32_iot_products.UseCase.Json.{has_key, json_f32, read_f32, holds}
use esp32_iot_products.UseCase.ColdChain.{
  cold_sample, cold_excursion, cold_door, cold_ack, Cold, is_hot, cold_on_sample, cd_json, cd_reply,
}
use esp32_iot_products.UseCase.Types.{In, Out, zero_in}
use esp32_iot_products.Core.Err.{ok}
use esp32_iot_products.Core.Float.{Float, le, whole}
use esp32_iot_products.Prelude.{
  false, ◌||◌, if◌then◌else◌, ◌&&◌, ◌↔◌, not, arith, ◌≡◌, Bool, ◌⊎◌, true,
}

module _ {F : Type 0} ⦃fl : Float F⦄ where
  -- A sample of the sensors stores the temperature and the door, and leaves the alarm raised exactly
  -- if the temperature is above its limit, or the door is open now or was open before the sample. A
  -- temperature above the limit adds a sixtieth of a minute to the excursion and revokes the
  -- acknowledgement; one that is not changes neither.
  pub cold_on_sample_lem :
      (t rh : F) (open_door : Bool) (out : Out F) (cd : Cold F)
      → let (e, out', cd') = cold_on_sample t rh open_door out cd in
        let hot = fl.gt t cd.t_max in
        (e ≡ ok)
        × (cd'.t ≡ t)
        × (cd'.door ≡ open_door)
        × (cd'.alarm ≡ (hot || cd.door || open_door))
        × (out'.alarm ≡ cd'.alarm)
        × (cd'.minutes_hot
            ≡ (if hot then fl.add cd.minutes_hot (fl.div (whole 1) (whole 60)) else cd.minutes_hot))
        × (cd'.acked ≡ (cd.acked && not hot))
  unfolding cold_on_sample cold_sample cold_door cold_excursion cd_reply cd_json is_hot holds
      has_key read_f32 json_f32 zero_in
  cold_on_sample_lem t rh open_door out cd = ground arith

  -- An acknowledgement silences the alarm exactly if the door is shut and the temperature is at most
  -- the limit; otherwise the alarm stays as it was.
  pub cold_ack_lem :
      (inp : In F) (out : Out F) (cd : Cold F)
      → let (e, out', cd') = cold_ack inp out cd in
        (cd'.acked ≡ true)
        × ((cd'.alarm ≡ true)
            ↔ ((cd.alarm ≡ true) × ((cd.door ≡ true) ⊎ (le cd.t cd.t_max ≡ false))))
        × (out'.alarm ≡ cd'.alarm)
  unfolding cold_ack cd_reply cd_json
  cold_ack_lem inp out cd = ground arith
