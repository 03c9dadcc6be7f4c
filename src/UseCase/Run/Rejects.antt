-- ===== src/UseCase/Run/Rejects.antt =====
-- The use cases of components/iot_usecases that only refuse, through the dispatcher.
use esp32_iot_products.UseCase.Charger.{ev_reject_contactor}
use esp32_iot_products.UseCase.Robot.{robot_reject}
use esp32_iot_products.UseCase.Run.{World, on_ev, on_can, on_robot, fn_of, call}
use esp32_iot_products.UseCase.Types.{UcId, In, Out}
use esp32_iot_products.UseCase.Automotive.{auto_reject_tx}
use esp32_iot_products.Core.Err.{denied}
use esp32_iot_products.Core.Float.{Float}
use esp32_iot_products.Prelude.{refl, Bool, ◌≡◌, false, true, arith}

-- Motion, the contactor and frames on the bus are left to other controllers.
unfoldable pub refuses : UcId → Bool
refuses UcId.robot_reject_motion = true
refuses UcId.ev_reject_contactor = true
refuses UcId.auto_reject_tx = true
refuses _ = false

module _ {F : Type 0} ⦃fl : Float F⦄ where
  pub call-refuses :
      (id : UcId) (inp : In F) (out : Out F) (σ : World F)
      → refuses id ≡ true
      → ((call (fn_of id) id inp out σ).0 ≡ denied) × ((call (fn_of id) id inp out σ).2 ≡ σ)
  unfolding refuses call fn_of on_robot on_ev on_can robot_reject ev_reject_contactor auto_reject_tx
  call-refuses UcId.invalid inp out σ h = ground (arith, h)
  call-refuses UcId.robot_reject_motion inp out σ h = (refl, refl)
  call-refuses UcId.ev_reject_contactor inp out σ h = (refl, refl)
  call-refuses UcId.auto_reject_tx inp out σ h = (refl, refl)
  call-refuses _ inp out σ h = ground (arith, h)
