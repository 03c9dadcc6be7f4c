-- ===== src/UseCase/Run/Lift.antt =====
-- The safety conditions of the static states of components/iot_usecases, and how a handler of one
-- part keeps them.
use esp32_iot_products.UseCase.Charger.{Ev}
use esp32_iot_products.UseCase.Water.{WaterDev}
use esp32_iot_products.UseCase.Platform.{Plat}
use esp32_iot_products.UseCase.Energy.{EnergyDev}
use esp32_iot_products.UseCase.Predictive.{Pm}
use esp32_iot_products.UseCase.Robot.{Robot}
use esp32_iot_products.UseCase.Agri.{AgriDev}
use esp32_iot_products.UseCase.Industrial.{Ind}
use esp32_iot_products.UseCase.Run.{
  World, on_plat, on_ind, on_pm, on_ev, on_can, on_trk, on_agri, on_cold, on_robot, on_energy,
  on_water,
}
use esp32_iot_products.UseCase.Types.{Handler, Preserves}
use esp32_iot_products.UseCase.ColdChain.{Cold}
use esp32_iot_products.UseCase.Automotive.{Can}
use esp32_iot_products.UseCase.Tracker.{Tracker}
use esp32_iot_products.UseCase.Automotive.Frames.{AllowListFixed}
use esp32_iot_products.UseCase.Water.Valve.{TamperShut}
use esp32_iot_products.UseCase.Platform.Settings.{PlatSane}
use esp32_iot_products.UseCase.Agri.Pump.{PumpSafe}
use esp32_iot_products.UseCase.Industrial.Faults.{AsksAck}
use esp32_iot_products.UseCase.Tracker.Bounds.{SleepBounded}
use esp32_iot_products.Core.Float.{Float}

module _ {F : Type 0} ⦃fl : Float F⦄ where
  -- The safety conditions of the machines whose commands meet in the dispatcher.
  pub record WorldSafe (σ : World F) : Type 0 where
    pub ind_safe : AsksAck σ.ind
    pub water_safe : TamperShut (record { w = σ.water; gpio = σ.gpio })
    pub agri_safe : PumpSafe σ.agri
    pub trk_safe : SleepBounded σ.trk
    pub can_safe : AllowListFixed σ.can
    pub plat_safe : PlatSane σ.plat

  pub on_pm-WorldSafe : (h : Handler F (Pm F)) → Preserves WorldSafe (on_pm h)
  unfolding on_pm
  on_pm-WorldSafe h inp out σ v = record {
    ind_safe = v.ind_safe;
    water_safe = v.water_safe;
    agri_safe = v.agri_safe;
    trk_safe = v.trk_safe;
    can_safe = v.can_safe;
    plat_safe = v.plat_safe;
  }

  pub on_ev-WorldSafe : (h : Handler F (Ev F)) → Preserves WorldSafe (on_ev h)
  unfolding on_ev
  on_ev-WorldSafe h inp out σ v = record {
    ind_safe = v.ind_safe;
    water_safe = v.water_safe;
    agri_safe = v.agri_safe;
    trk_safe = v.trk_safe;
    can_safe = v.can_safe;
    plat_safe = v.plat_safe;
  }

  pub on_cold-WorldSafe : (h : Handler F (Cold F)) → Preserves WorldSafe (on_cold h)
  unfolding on_cold
  on_cold-WorldSafe h inp out σ v = record {
    ind_safe = v.ind_safe;
    water_safe = v.water_safe;
    agri_safe = v.agri_safe;
    trk_safe = v.trk_safe;
    can_safe = v.can_safe;
    plat_safe = v.plat_safe;
  }

  pub on_robot-WorldSafe : (h : Handler F Robot) → Preserves WorldSafe (on_robot h)
  unfolding on_robot
  on_robot-WorldSafe h inp out σ v = record {
    ind_safe = v.ind_safe;
    water_safe = v.water_safe;
    agri_safe = v.agri_safe;
    trk_safe = v.trk_safe;
    can_safe = v.can_safe;
    plat_safe = v.plat_safe;
  }

  pub on_energy-WorldSafe : (h : Handler F (EnergyDev F)) → Preserves WorldSafe (on_energy h)
  unfolding on_energy
  on_energy-WorldSafe h inp out σ v = record {
    ind_safe = v.ind_safe;
    water_safe = record { shut = v.water_safe.shut };
    agri_safe = v.agri_safe;
    trk_safe = v.trk_safe;
    can_safe = v.can_safe;
    plat_safe = v.plat_safe;
  }

  pub on_ind-WorldSafe :
      (h : Handler F (Ind F)) → Preserves AsksAck h → Preserves WorldSafe (on_ind h)
  unfolding on_ind
  on_ind-WorldSafe h p inp out σ v = record {
    ind_safe = p inp out σ.ind v.ind_safe;
    water_safe = v.water_safe;
    agri_safe = v.agri_safe;
    trk_safe = v.trk_safe;
    can_safe = v.can_safe;
    plat_safe = v.plat_safe;
  }

  pub on_agri-WorldSafe :
      (h : Handler F AgriDev) → Preserves PumpSafe h → Preserves WorldSafe (on_agri h)
  unfolding on_agri
  on_agri-WorldSafe h p inp out σ v = record {
    ind_safe = v.ind_safe;
    water_safe = v.water_safe;
    agri_safe = p inp out σ.agri v.agri_safe;
    trk_safe = v.trk_safe;
    can_safe = v.can_safe;
    plat_safe = v.plat_safe;
  }

  pub on_trk-WorldSafe :
      (h : Handler F Tracker) → Preserves SleepBounded h → Preserves WorldSafe (on_trk h)
  unfolding on_trk
  on_trk-WorldSafe h p inp out σ v = record {
    ind_safe = v.ind_safe;
    water_safe = v.water_safe;
    agri_safe = v.agri_safe;
    trk_safe = p inp out σ.trk v.trk_safe;
    can_safe = v.can_safe;
    plat_safe = v.plat_safe;
  }

  pub on_can-WorldSafe :
      (h : Handler F Can) → Preserves AllowListFixed h → Preserves WorldSafe (on_can h)
  unfolding on_can
  on_can-WorldSafe h p inp out σ v = record {
    ind_safe = v.ind_safe;
    water_safe = v.water_safe;
    agri_safe = v.agri_safe;
    trk_safe = v.trk_safe;
    can_safe = p inp out σ.can v.can_safe;
    plat_safe = v.plat_safe;
  }

  pub on_plat-WorldSafe :
      (h : Handler F Plat) → Preserves PlatSane h → Preserves WorldSafe (on_plat h)
  unfolding on_plat
  on_plat-WorldSafe h p inp out σ v = record {
    ind_safe = v.ind_safe;
    water_safe = v.water_safe;
    agri_safe = v.agri_safe;
    trk_safe = v.trk_safe;
    can_safe = v.can_safe;
    plat_safe = p inp out σ.plat v.plat_safe;
  }

  pub on_water-WorldSafe :
      (h : Handler F (WaterDev F)) → Preserves TamperShut h → Preserves WorldSafe (on_water h)
  unfolding on_water
  on_water-WorldSafe h p inp out σ v = record {
    ind_safe = v.ind_safe;
    water_safe = p inp out (record { w = σ.water; gpio = σ.gpio }) v.water_safe;
    agri_safe = v.agri_safe;
    trk_safe = v.trk_safe;
    can_safe = v.can_safe;
    plat_safe = v.plat_safe;
  }
