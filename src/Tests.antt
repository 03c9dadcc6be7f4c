-- ===== src/Tests.antt =====
-- The states that the tests start from: those that the static initialisers of the sources give, at
-- thousandths for floats, with the drivers up and the event group made.
mod Commands
mod Machines
mod Field
mod Vehicles
mod System
mod Fifo
mod Tasks
mod Node
mod Pins
mod Objects
use esp32_iot_products.Security.{security_init}
use esp32_iot_products.Ota.{OtaState}
use esp32_iot_products.UseCase.Charger.{ev_init}
use esp32_iot_products.UseCase.Water.{water_init}
use esp32_iot_products.UseCase.Platform.{Plat}
use esp32_iot_products.UseCase.Energy.{energy_init}
use esp32_iot_products.UseCase.Predictive.{pm_init}
use esp32_iot_products.UseCase.Robot.{robot_init}
use esp32_iot_products.UseCase.Agri.{agri_init}
use esp32_iot_products.UseCase.Industrial.{ind_init}
use esp32_iot_products.UseCase.Run.{World}
use esp32_iot_products.UseCase.ColdChain.{cold_init}
use esp32_iot_products.UseCase.Automotive.{can_init}
use esp32_iot_products.UseCase.Tracker.{trk_init}
use esp32_iot_products.Core.Log.{log_info}
use esp32_iot_products.Core.Config.{defaults}
use esp32_iot_products.Core.Float.Milli.{Milli, milli_float}
use esp32_iot_products.Prelude.{[], false, true, some}

abbrev pub start_plat : Plat
start_plat = record {
  config = record { cfg = defaults; ready = true };
  local = defaults;
  tasks = record { shutdown = false; system_evt = some 0 };
  ota = record { state = OtaState.idle; url = [] };
  log = record { level = log_info };
  security = security_init 0;
  diag = record { wifi_fails = 0; mqtt_disc = 0; sensor_to = 0; wdt = 0; last = 0; boot_ms = 0 };
  millis = 0;
}

abbrev pub start_world : World Milli
start_world = record {
  init = false;
  plat = start_plat;
  energy = energy_init;
  gpio = record { init = true; out_shadow = 0 };
  ind = ind_init;
  pm = pm_init;
  water = water_init;
  ev = ev_init;
  can = can_init;
  trk = trk_init;
  agri = record { ag = agri_init; pwm = record { init = true; duty_max = 1023 }; duty = 0 };
  cold = cold_init;
  robot = robot_init;
}
