-- ===== src/Main.antt =====
-- src/main/main.c, built for the host: the order in which a node is brought up.
pub mod Boot
pub mod Bootstrap
pub mod Connect
use Prim.Native.Nat.{bit_and}
use esp32_iot_products.Wifi.{Wifi, wifi_init, wifi_start}
use esp32_iot_products.CText.{Text, codes}
use esp32_iot_products.Ble.{Ble, ble_init}
use esp32_iot_products.Security.{default_device_id, security_init}
use esp32_iot_products.Provision.{contains, is_empty}
use esp32_iot_products.Ota.{ota_init}
use esp32_iot_products.Profiles.{Profile, Node}
use esp32_iot_products.Diag.{wifi_connect_fail, diag_event, diag_init}
use esp32_iot_products.Core.Config.{RuntimeCfg, Config, config_load, config_save, config_init}
use esp32_iot_products.Core.Err.{Err, ok, EspCodes}
use esp32_iot_products.Core.Types.{device_id_len}
use esp32_iot_products.Mqtt.Client.{Client, mqtt_init, mqtt_start_host}
use esp32_iot_products.Prelude.Int.{pos}
use esp32_iot_products.Drivers.Startup.{DriversCalls, drivers_init}
use esp32_iot_products.Drivers.Wdt.{Wdt}
use esp32_iot_products.Drivers.Uart.{UartDev}
use esp32_iot_products.Profiles.Startup.{Mutexes, profile_init}
use esp32_iot_products.Rtos.Event.{Event, event_wait, evt_wifi_ip}
use esp32_iot_products.Rtos.EventWait.{ready}
use esp32_iot_products.Rtos.Start.{Slot, system_evt, slot_num, Start, tasks_start}
use esp32_iot_products.Prelude.{Bool, if◌then◌else◌, some, ◌&&◌, true, false, not, ℕ, ◌==◌, ◌||◌}

-- All states that `app_main` reaches. The event group of the tasks' context is one object: each
-- component that holds it is handed it before it runs.
pub record App (F : Type 0) : Type 0 where
  pub node : Node F
  pub wdt : Wdt
  pub start : Start
  pub wifi : Wifi
  pub ble : Ble
  pub mqtt : Client

-- What creating the objects of other libraries returns.
pub record HostCalls : Type 0 where
  pub drivers : DriversCalls
  pub made : Slot → Err × ℕ
  pub profile_mutexes : Mutexes
  pub pump_task : Err

-- How the function ends: `return` after the tasks failed, in commissioning, or connected.
pub data Ending : Type 0 where
  tasks_failed unprovisioned wifi_timeout online : Ending

-- `cfg.device_id[0] == '\0' || strstr(cfg.device_id, "unprovisioned") != NULL`
pub unnamed : Text → Bool
unnamed id = is_empty id || contains id (codes "unprovisioned")

-- `cfg` once it has been loaded, with a name of its own.
pub named_cfg : RuntimeCfg → RuntimeCfg
named_cfg cfg =
    if unnamed cfg.device_id
    then record cfg { device_id = (default_device_id cfg.device_id device_id_len).1 }
    else cfg

-- `cfg.provisioned && cfg.wifi_ssid[0] != '\0'`
pub joins : RuntimeCfg → Bool
joins cfg = cfg.provisioned && not (is_empty cfg.wifi_ssid)

-- What is stored once the name is settled.
pub kept_config : RuntimeCfg → Config → Config
kept_config loaded c = if unnamed loaded.device_id then (config_save (named_cfg loaded) c).1 else c

module _ {F : Type 0} where
  with_event : Event → App F → App F
  with_event evt a =
      let n = a.node in
      let σ = n.world in
      let p = σ.plat in
      let t = p.tasks in
      let w = a.wifi in
      let b = a.ble in
      let c = a.mqtt in
      record a {
        node = record n {
          world = record σ { plat = record p { tasks = record t { system_evt = evt } } };
        };
        wifi = record w { system_evt = evt };
        ble = record b { system_evt = evt };
        mqtt = record c { system_evt = evt };
      }

  -- `iot_config_load(&cfg)`, and the name; the second component is `cfg`.
  pub name_device : App F → App F × RuntimeCfg
  name_device a =
      let n = a.node in
      let σ = n.world in
      let p = σ.plat in
      let loaded = (config_load p.local p.config).1 in
      let cfg = named_cfg loaded in
      let kept = kept_config loaded p.config in
      (record a { node = record n { world = record σ { plat = record p { config = kept } } } }, cfg)

module _ {F : Type 0} (k : EspCodes) (calls : HostCalls) (profile : Profile) where
  -- From the configuration to the over-the-air updates.
  pub bring_up : App F → App F
  bring_up a =
      let n = a.node in
      let σ = n.world in
      let p = σ.plat in
      let ports : UartDev = record { uart = n.ports; gpio = σ.gpio } in
      let drv = (drivers_init k calls.drivers (record { wdt = a.wdt; ports = ports })).1 in
      let p' = record p {
        config = (config_init p.config).1;
        security = security_init p.security.profile;
        diag = diag_init p.millis p.diag;
        ota = ota_init p.ota;
      } in
      record a {
        wdt = drv.wdt;
        node = record n {
          ports = drv.ports.uart;
          world = record σ { init = true; plat = p'; gpio = drv.ports.gpio };
        };
      }

  -- From the test of the network name on.
  connect : RuntimeCfg → App F → Ending × App F
  connect cfg a =
      let w = (wifi_start (some cfg.wifi_ssid) (some cfg.wifi_pass) a.wifi).1 in
      let joined = with_event w.system_evt (record a { wifi = w }) in
      let (bits, evt) = event_wait joined.wifi.system_evt evt_wifi_ip false in
      let up = (mqtt_start_host calls.pump_task cfg joined.mqtt).1 in
      let n = joined.node in
      let σ = n.world in
      let p = σ.plat in
      if bit_and bits evt_wifi_ip == 0
      then (
        wifi_timeout,
        record joined {
          node = record n {
            world = record σ { plat = record p { diag = diag_event wifi_connect_fail p.diag } };
          };
        },
      )
      else (online, record joined { mqtt = up })

  -- From `iot_profile_init` on. Setting the hooks only stores them.
  pub serve_profile : RuntimeCfg → App F → Ending × App F
  serve_profile cfg a =
      let sem = a.start.ctx (slot_num Slot.sensor_isr_sem) in
      let b = (ble_init k (pos 0) (some cfg.device_id) a.ble).1 in
      let c = (mqtt_init a.mqtt).1 in
      let ready = record a {
        node = profile_init k calls.profile_mutexes profile sem a.node;
        ble = b;
        wifi = wifi_init a.wifi;
        mqtt = c;
      } in
      if joins cfg then connect cfg ready else (unprovisioned, ready)

  -- The end, once the tasks are started: the event group is empty.
  launch : Err → RuntimeCfg → App F → Ending × App F
  launch ok cfg a = serve_profile cfg (with_event (some 0) a)
  launch _ cfg a = (tasks_failed, a)

  pub app_main : App F → Ending × App F
  app_main a =
      let (b, cfg) = name_device (bring_up a) in
      let (e, s) = tasks_start calls.made b.start in launch e cfg (record b { start = s })
