-- ===== src/UseCase/Automotive/Frames.antt =====
-- What the CAN gateway of components/iot_usecases/src/iot_uc_ev_auto.c lets through.
use esp32_iot_products.UseCase.Automotive.{
  auto_filter, auto_decode, Can, auto_on_frame, auto_reject_tx, auto_bus_off, auto_dtc,
  auto_get_state,
}
use esp32_iot_products.UseCase.Types.{Out, zero_in, Preserves}
use esp32_iot_products.Core.Err.{ok, denied}
use esp32_iot_products.Core.Float.{Float}
use esp32_iot_products.Prelude.Words.{add32}
use esp32_iot_products.Prelude.{◌↔◌, ◌≤◌, arith, ◌≡◌, ℕ, ◌<◌, ◌⊎◌}

-- The allow-list holds the ids from 0x100 to 0x7ff.
pub record AllowListFixed (can : Can) : Type 0 where
  pub lowest : can.allow_min ≡ 0x100
  pub highest : can.allow_max ≡ 0x7ff

module _ {F : Type 0} ⦃fl : Float F⦄ where
  -- A frame is accepted exactly if its id lies in the allow-list. One that is denied leaves the
  -- decoded signals alone; after one that is accepted the speed is below 250, the engine speed lies
  -- between 800 and 4799, and the coolant between 70 and 109. The id is recorded either way.
  pub auto_on_frame_lem :
      (id speed rpm coolant : ℕ) (out : Out F) (can : Can)
      → let (e, out', can') = auto_on_frame id speed rpm coolant out can in
        (can'.last_id ≡ id)
        × ((e ≡ ok) ↔ ((can.allow_min ≤ id) × (id ≤ can.allow_max)))
        × (((e ≡ ok)
              × (can'.speed < 250)
              × (800 ≤ can'.rpm)
              × (can'.rpm < 4800)
              × (70 ≤ can'.coolant)
              × (can'.coolant < 110))
            ⊎ ((e ≡ denied)
                × (can'.speed ≡ can.speed)
                × (can'.rpm ≡ can.rpm)
                × (can'.coolant ≡ can.coolant)))
  unfolding auto_on_frame auto_filter auto_decode zero_in add32
  auto_on_frame_lem id speed rpm coolant out can = ground arith

  pub auto_filter-AllowListFixed : Preserves {F = F} AllowListFixed auto_filter
  unfolding auto_filter
  auto_filter-AllowListFixed inp out can v = ground (arith, v.lowest, v.highest)

  pub auto_decode-AllowListFixed : Preserves {F = F} AllowListFixed auto_decode
  unfolding auto_decode
  auto_decode-AllowListFixed inp out can v = ground (arith, v.lowest, v.highest)

  pub auto_reject_tx-AllowListFixed : Preserves {F = F} AllowListFixed auto_reject_tx
  unfolding auto_reject_tx
  auto_reject_tx-AllowListFixed inp out can v = ground (arith, v.lowest, v.highest)

  pub auto_bus_off-AllowListFixed : Preserves {F = F} AllowListFixed auto_bus_off
  unfolding auto_bus_off
  auto_bus_off-AllowListFixed inp out can v = ground (arith, v.lowest, v.highest)

  pub auto_dtc-AllowListFixed : Preserves {F = F} AllowListFixed auto_dtc
  unfolding auto_dtc
  auto_dtc-AllowListFixed inp out can v = ground (arith, v.lowest, v.highest)

  pub auto_get_state-AllowListFixed : Preserves {F = F} AllowListFixed auto_get_state
  unfolding auto_get_state
  auto_get_state-AllowListFixed inp out can v = ground (arith, v.lowest, v.highest)

  pub auto_on_frame-AllowListFixed :
      (a b c d : ℕ) → Preserves {F = F} AllowListFixed (λ inp. auto_on_frame a b c d)
  unfolding auto_on_frame auto_filter auto_decode
  auto_on_frame-AllowListFixed a b c d inp out can safe = ground (arith, safe.lowest, safe.highest)
