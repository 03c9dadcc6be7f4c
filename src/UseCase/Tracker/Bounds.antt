-- ===== src/UseCase/Tracker/Bounds.antt =====
-- The settings of the asset tracker of components/iot_usecases/src/iot_uc_field.c.
use esp32_iot_products.UseCase.Json.{has_key, holds}
use esp32_iot_products.UseCase.Tracker.{
  trk_beacon, trk_motion, trk_sleep, Tracker, trk_batt, trk_geo, trk_on_sample, batt_of,
}
use esp32_iot_products.UseCase.Types.{In, Out, zero_in, Preserves}
use esp32_iot_products.Core.Err.{ok, invalid_arg}
use esp32_iot_products.Core.Float.{Float}
use esp32_iot_products.Prelude.Int.{ℤ, pos, ltb_ℤ, nonzero}
use esp32_iot_products.Prelude.Words.{u32_of_int}
use esp32_iot_products.Prelude.{◌≡◌, if◌then◌else◌, arith, Bool, ◌⊎◌, ◌≤◌}

-- The sleep interval lies between 5 s and an hour.
pub record SleepBounded (tr : Tracker) : Type 0 where
  pub least : 5 ≤ tr.sleep_s
  pub most : tr.sleep_s ≤ 3600

module _ {F : Type 0} ⦃fl : Float F⦄ where
  pub trk_beacon-SleepBounded : Preserves {F = F} SleepBounded trk_beacon
  unfolding trk_beacon
  trk_beacon-SleepBounded inp out tr v = ground (arith, v.least, v.most)

  pub trk_motion-SleepBounded : Preserves {F = F} SleepBounded trk_motion
  unfolding trk_motion
  trk_motion-SleepBounded inp out tr v = record { least = v.least; most = v.most }

  pub trk_batt-SleepBounded : Preserves {F = F} SleepBounded trk_batt
  unfolding trk_batt batt_of
  trk_batt-SleepBounded inp out tr v = record { least = v.least; most = v.most }

  pub trk_geo-SleepBounded : Preserves {F = F} SleepBounded trk_geo
  unfolding trk_geo
  trk_geo-SleepBounded inp out tr v = record { least = v.least; most = v.most }

  -- An interval outside 5 to 3600 seconds is refused and the tracker left alone; one that is
  -- accepted lies within, and only the interval changes.
  pub trk_sleep_lem :
      (inp : In F) (out : Out F) (tr : Tracker)
      → let (e, out', tr') = trk_sleep inp out tr in
        ((e ≡ invalid_arg) × (tr' ≡ tr))
        ⊎ ((e ≡ ok)
            × (5 ≤ tr'.sleep_s)
            × (tr'.sleep_s ≤ 3600)
            × (tr' ≡ record tr { sleep_s = tr'.sleep_s }))
  unfolding trk_sleep u32_of_int
  trk_sleep_lem inp out tr = ground arith

  pub trk_sleep-SleepBounded : Preserves {F = F} SleepBounded trk_sleep
  trk_sleep-SleepBounded inp out tr v = ground (arith, trk_sleep_lem inp out tr, v.least, v.most)

  -- A sample of the sensors raises the alarm of its reply exactly if the battery is then below
  -- 3300 mV, whatever the geofence says; a voltage that is not positive leaves the old one.
  pub trk_on_sample_lem :
      (rssi batt : ℤ) (moving : Bool) (out : Out F) (tr : Tracker)
      → let (e, out', tr') = trk_on_sample rssi batt moving out tr in
        (e ≡ ok)
        × (tr'.batt_mv ≡ (if ltb_ℤ (pos 0) batt then batt else tr.batt_mv))
        × (tr'.rssi ≡ (if nonzero rssi then rssi else tr.rssi))
        × (tr'.moving ≡ moving)
        × (out'.alarm ≡ ltb_ℤ tr'.batt_mv (pos 3300))
  unfolding trk_on_sample trk_beacon trk_motion trk_batt batt_of holds has_key zero_in
  trk_on_sample_lem rssi batt moving out tr = ground arith

  pub trk_on_sample-SleepBounded :
      (r b : ℤ) (m : Bool) → Preserves {F = F} SleepBounded (λ inp. trk_on_sample r b m)
  unfolding trk_on_sample
  trk_on_sample-SleepBounded r b m inp out tr safe =
      trk_batt-SleepBounded _ _ _
        (trk_motion-SleepBounded _ _ _ (trk_beacon-SleepBounded _ out tr safe))
