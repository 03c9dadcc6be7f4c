-- ===== src/Main/Boot.antt =====
-- How src/main/main.c ends: the name of the device, and the connection to the broker.
use esp32_iot_products.Main.{App, unnamed, named_cfg, name_device, kept_config}
use esp32_iot_products.Core.Config.{RuntimeCfg, config_load, config_save, Config}
use esp32_iot_products.Prelude.{inl, inr, ◌≡◌, false, refl, true, Bool-cases, sym, ap, subst}
use esp32_iot_products.CText.{Text, codes, starts_with, strstr, snprintf}
use esp32_iot_products.Security.{default_device_id}
use esp32_iot_products.Provision.{contains}
use esp32_iot_products.Core.Types.{device_id_len}

default_name-named : (old : Text) → unnamed (default_device_id old device_id_len).1 ≡ false
unfolding unnamed default_device_id contains strstr starts_with codes snprintf
default_name-named old = refl

-- Every name that is kept or given is one that no later start replaces.
named_cfg-named : (cfg : RuntimeCfg) → unnamed (named_cfg cfg).device_id ≡ false
unfolding named_cfg
named_cfg-named cfg = elim (Bool-cases (unnamed cfg.device_id)) [
  | inl e ↦ rw e (default_name-named cfg.device_id)
  | inr e ↦ rw e e
]

kept_config-cfg :
    (local cfg : RuntimeCfg)
    → let c : Config = record { cfg = cfg; ready = true } in
      (kept_config (config_load local c).1 c).cfg ≡ named_cfg (config_load local c).1
unfolding kept_config named_cfg config_load config_save
kept_config-cfg local cfg = elim (Bool-cases (unnamed cfg.device_id)) [
  | inl e ↦ rw e refl
  | inr e ↦ rw e refl
]

module _ {F : Type 0} where
  -- The configuration that a start goes on with has a name of its own, and is the one that is stored,
  -- once the store has been set up.
  pub name_device-named :
      (a : App F)
      → a.node.world.plat.config.ready ≡ true
      → let (b, cfg) = name_device a in
        (unnamed cfg.device_id ≡ false) × (b.node.world.plat.config.cfg ≡ cfg)
  unfolding name_device
  name_device-named a h =
      let p = a.node.world.plat in
      let set_up : p.config ≡ record { cfg = p.config.cfg; ready = true } =
        ap (λ b. record { cfg = p.config.cfg; ready = b }) h in
      (
        named_cfg-named _,
        subst
            (λ c.
              (kept_config (config_load p.local c).1 c).cfg ≡ named_cfg (config_load p.local c).1)
            (sym set_up) (kept_config-cfg p.local p.config.cfg),
      )
