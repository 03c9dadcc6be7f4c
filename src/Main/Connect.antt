-- ===== src/Main/Connect.antt =====
-- Which way src/main/main.c ends.
use Prim.Native.Nat.{bit_and}
use esp32_iot_products.Main.{
  App, HostCalls, Ending, unprovisioned, online, serve_profile, with_event, joins, name_device,
  bring_up, app_main, connect, launch, unnamed, named_cfg,
}
use esp32_iot_products.Wifi.{wifi_start}
use esp32_iot_products.CText.{Text}
use esp32_iot_products.Provision.{is_empty}
use esp32_iot_products.Profiles.{Profile}
use esp32_iot_products.Core.Config.{RuntimeCfg, Config, defaults, config_init, config_load}
use esp32_iot_products.Core.Err.{EspCodes, Err, ok}
use esp32_iot_products.Mqtt.Client.{MqttState, mqtt_down, mqtt_up, mqtt_init, mqtt_start_host}
use esp32_iot_products.Wifi.Joined.{wifi_start-joined, wifi_init-event}
use esp32_iot_products.Rtos.Event.{event_set, event_wait, evt_wifi_ip}
use esp32_iot_products.Rtos.Start.{Start, Slot, tasks_start}
use esp32_iot_products.Prelude.{
  inl, ◌∙◌, Bool, if◌then◌else◌, arith, length, ◌≡◌, inr, [], ◌==◌, ◌∷◌, true, ◌<◌, refl, false,
  some, Bool-cases, ap, subst, sym, not, ltb, ◌&&◌,
}
use esp32_iot_products.Rtos.Start.Order.{tasks_start-succeeds}

if-false-elim :
    {A : Type 0} (P : A → Type 0) (b : Bool) (x y : A) → b ≡ false → P y → P (if b then x else y)
if-false-elim P true x y h p = ground (arith, h)
if-false-elim P false x y h p = p

joins_lem : (cfg : RuntimeCfg) → joins cfg ≡ (cfg.provisioned && ltb 0 (length cfg.wifi_ssid))
unfolding joins
joins_lem cfg = ap (λ b. cfg.provisioned && b) (not_empty cfg.wifi_ssid)
  where
    not_empty : (t : Text) → not (is_empty t) ≡ ltb 0 (length t)
    not_empty [] = refl
    not_empty (c ∷ t) = ground arith

joins-named_cfg : (cfg : RuntimeCfg) → joins (named_cfg cfg) ≡ joins cfg
unfolding joins named_cfg
joins-named_cfg cfg = elim (Bool-cases (unnamed cfg.device_id)) [
  | inl e ↦ rw e refl
  | inr e ↦ rw e refl
]

-- What is set up already is neither set up again nor left out by reading it.
config_load-config_init :
    (local : RuntimeCfg) (c : Config)
    → (config_load local (config_init c).1).1 ≡ (if c.ready then c.cfg else defaults)
unfolding config_load config_init
config_load-config_init local c = elim (Bool-cases c.ready) [
  | inl e ↦ rw e refl
  | inr e ↦ rw e refl
]

joins-length : (cfg : RuntimeCfg) → joins cfg ≡ true → 0 < length cfg.wifi_ssid
unfolding joins
joins-length cfg h = nonempty cfg.wifi_ssid (ground (arith, h))
  where
    nonempty : (t : Text) → is_empty t ≡ false → 0 < length t
    nonempty [] e = ground (arith, e)
    nonempty (c ∷ t) e = ground arith

module _ {F : Type 0} (k : EspCodes) (calls : HostCalls) (profile : Profile) where
  -- The ending, the state of the connection to the broker, and the tasks.
  abbrev Ends : Ending → MqttState → Start → Ending × App F → Type 0
  Ends e m s r = (r.0 ≡ e) × (r.1.mqtt.state ≡ m) × (r.1.start ≡ s)

  connect-online :
      (cfg : RuntimeCfg) (a : App F)
      → 0 < length cfg.wifi_ssid
      → a.wifi.system_evt ≡ some 0
      → Ends online mqtt_up a.start (connect k calls profile cfg a)
  unfolding connect with_event event_wait event_set mqtt_start_host
  connect-online cfg a h empty =
      let w = (wifi_start (some cfg.wifi_ssid) (some cfg.wifi_pass) a.wifi).1 in
      let bits = (event_wait w.system_evt evt_wifi_ip false).0 in
      let told : w.system_evt ≡ some 1 =
        wifi_start-joined cfg.wifi_ssid (some cfg.wifi_pass) a.wifi h
        ∙ ap (λ e. event_set e evt_wifi_ip) empty in
      let seen : (bit_and bits evt_wifi_ip == 0) ≡ false =
        ap (λ e. bit_and (event_wait e evt_wifi_ip false).0 evt_wifi_ip == 0) told in
      if-false-elim (Ends online mqtt_up a.start) (bit_and bits evt_wifi_ip == 0) _ _ seen
        (refl, refl, refl)

  serve_profile-Ends :
      (cfg : RuntimeCfg) (a : App F)
      → a.wifi.system_evt ≡ some 0
      → Ends
          (if joins cfg then online else unprovisioned)
          (if joins cfg then mqtt_up else mqtt_down)
          a.start
          (serve_profile k calls profile cfg a)
  unfolding serve_profile mqtt_init
  serve_profile-Ends cfg a empty = elim (Bool-cases (joins cfg)) [
    | inl e ↦ rw e (connect-online cfg _ (joins-length cfg e) (wifi_init-event a.wifi ∙ empty))
    | inr e ↦ rw e (refl, refl, refl)
  ]

  launch-Ends :
      (e : Err) (cfg : RuntimeCfg) (a : App F)
      → e ≡ ok
      → Ends
          (if joins cfg then online else unprovisioned)
          (if joins cfg then mqtt_up else mqtt_down)
          a.start
          (launch k calls profile e cfg a)
  unfolding launch with_event
  launch-Ends e cfg a h =
      subst
        (λ c.
          Ends (if joins cfg then online else unprovisioned)
            (if joins cfg then mqtt_up else mqtt_down) a.start (launch k calls profile c cfg a))
        (sym h) (serve_profile-Ends cfg _ refl)

  app_main-Ends :
      (a : App F)
      → a.start.started ≡ false
      → ((x : Slot) → (calls.made x).0 ≡ ok)
      → let cfg = (name_device (bring_up k calls profile a)).1 in
        let (ending, b) = app_main k calls profile a in
        (ending ≡ (if joins cfg then online else unprovisioned))
        × (b.mqtt.state ≡ (if joins cfg then mqtt_up else mqtt_down))
        × (b.start.started ≡ true)
  unfolding app_main name_device bring_up
  app_main-Ends a fresh good =
      let (b, cfg) = name_device (bring_up k calls profile a) in
      let (e, s) = tasks_start calls.made b.start in
      let (code, up) = tasks_start-succeeds calls.made b.start fresh good in
      let (ends, broker, same) = launch-Ends e cfg (record b { start = s }) code in
      (ends, broker, ap (λ t. t.started) same ∙ up)

  joins-bring_up :
      (a : App F)
      → let c = a.node.world.plat.config in
        let cfg = if c.ready then c.cfg else defaults in
        joins (name_device (bring_up k calls profile a)).1
        ≡ (cfg.provisioned && ltb 0 (length cfg.wifi_ssid))
  unfolding bring_up name_device
  joins-bring_up a =
      let p = a.node.world.plat in
      joins-named_cfg (config_load p.local (config_init p.config).1).1
      ∙ ap joins (config_load-config_init p.local p.config)
      ∙ joins_lem (if p.config.ready then p.config.cfg else defaults)

  -- On the host, when all objects and tasks can be created, the first start leaves the tasks started.
  -- It goes online, with the connection to the broker up, exactly when the configuration in force is
  -- marked as provisioned and names a network of at least one byte; otherwise it stays in
  -- commissioning, with the connection to the broker down. In force is the configuration in memory if
  -- that has been set up before, and the defaults, which are not provisioned, if not.
  pub app_main_lem :
      (a : App F)
      → a.start.started ≡ false
      → ((x : Slot) → (calls.made x).0 ≡ ok)
      → let c = a.node.world.plat.config in
        let cfg = if c.ready then c.cfg else defaults in
        let on = cfg.provisioned && ltb 0 (length cfg.wifi_ssid) in
        let (ending, b) = app_main k calls profile a in
        (ending ≡ (if on then online else unprovisioned))
        × (b.mqtt.state ≡ (if on then mqtt_up else mqtt_down))
        × (b.start.started ≡ true)
  app_main_lem a fresh good =
      let (ends, broker, up) = app_main-Ends a fresh good in
      let same = joins-bring_up a in
      (
        ends ∙ ap (λ b. if b then online else unprovisioned) same,
        broker ∙ ap (λ b. if b then mqtt_up else mqtt_down) same,
        up,
      )
