-- ===== src/Provision/Commission.antt =====
-- What a commissioning payload leaves: components/iot_provision/src/iot_provision.c.
use esp32_iot_products.UseCase.Json.Strings.{
  NoQuote, entry, copy_string-value, advance-append, take-short, length-append_one, strstr-entry,
}
use esp32_iot_products.CText.{Text, codes, strchr, skip_while, snprintf}
use esp32_iot_products.Provision.{
  extract_str, is_empty, apply_fields, ProvisionDev, provision_apply_json, provision_is_complete,
}
use esp32_iot_products.UseCase.Json.{quote, colon}
use esp32_iot_products.Core.Config.{RuntimeCfg, config_load, config_save}
use esp32_iot_products.Core.Err.{ok, Err}
use esp32_iot_products.Rtos.Event.{event_set, evt_provisioned, Event}
use esp32_iot_products.Prelude.{
  ◌<◌, false, true, some, ℕ, ◌||◌, ◌==◌, refl, ◌-◌, [], ◌∷◌, ◌++◌, ltb, arith, ◌≡◌, ◌≤◌, length, ap,
  subst, sym,
}
use esp32_iot_products.Rtos.Tasks.{Tasks}

pattern-short :
    (key : Text)
    → length key ≤ 29
    → snprintf 32 (quote ∷ (key ++ quote ∷ [])) ≡ quote ∷ (key ++ quote ∷ [])
unfolding snprintf
pattern-short key k =
    take-short 31 (quote ∷ (key ++ quote ∷ [])) (ground (arith, length-append_one key quote))

-- The reader of this component reads a written value back as well.
extract_str-entry :
    (key value rest old : Text) (out_len : ℕ)
    → length key ≤ 29
    → NoQuote value
    → length value < out_len
    → extract_str (entry key value rest) key old out_len ≡ value
unfolding extract_str strchr skip_while
extract_str-entry key value rest old out_len k q v =
    let tail = colon ∷ quote ∷ (value ++ quote ∷ rest) in
    let copied = copy_string-value (out_len - 1) value rest q (ground arith) in
    ground (
      arith,
      v,
      copied,
      pattern-short key k,
      strstr-entry key tail,
      advance-append (quote ∷ (key ++ quote ∷ [])) tail,
      advance-append (colon ∷ []) (quote ∷ (value ++ quote ∷ rest)),
    )

payload_fits : (len : ℕ) → 0 < len → len ≤ 512 → (len == 0 || ltb 512 len) ≡ false
payload_fits len more less = ground arith

nonempty-is_empty : (t : Text) → 0 < length t → is_empty t ≡ false
nonempty-is_empty [] h = ground arith
nonempty-is_empty (c ∷ t) h = refl

ssid_key : length (codes "ssid") ≤ 29
unfolding codes
ssid_key = ground arith

-- What the theorem below says of the outcome, for a network and the event group from before.
abbrev Commissioned : Text → Event → Err × ProvisionDev → Type 0
Commissioned ssid evt (e, d) =
    (e ≡ ok)
    × (d.config.ready ≡ true)
    × (d.config.cfg.wifi_ssid ≡ ssid)
    × (provision_is_complete d.config ≡ true)
    × (d.tasks.system_evt ≡ event_set evt evt_provisioned)

set_up-entry :
    (ssid rest : Text) (len : ℕ) (cfg local : RuntimeCfg) (t : Tasks)
    → 0 < len
    → len ≤ 512
    → NoQuote ssid
    → 0 < length ssid
    → length ssid < 33
    → let d : ProvisionDev = record {
      config = record { cfg = cfg; ready = true };
      tasks = t;
      local = local;
    } in
      Commissioned ssid t.system_evt
        (provision_apply_json (some (entry (codes "ssid") ssid rest)) len d)
unfolding provision_apply_json apply_fields config_load config_save provision_is_complete
set_up-entry ssid rest len cfg local t more less q some_byte short =
    let read = extract_str-entry (codes "ssid") ssid rest cfg.wifi_ssid 33 ssid_key q short in
    let named = nonempty-is_empty ssid some_byte in
    let fits = payload_fits len more less in rw (fits, read, named) (refl, refl, refl, refl, refl)

-- A payload of at most 512 bytes that starts with the name of a network, of 1 to 32 bytes without a
-- quote, is accepted whatever follows, when the configuration has been set up: the name is stored,
-- commissioning is complete, and the tasks are told.
pub provision_apply_json-entry :
    (ssid rest : Text) (len : ℕ) (d : ProvisionDev)
    → 0 < len
    → len ≤ 512
    → NoQuote ssid
    → 0 < length ssid
    → length ssid < 33
    → d.config.ready ≡ true
    → let (e, d') = provision_apply_json (some (entry (codes "ssid") ssid rest)) len d in
      (e ≡ ok)
      × (d'.config.ready ≡ true)
      × (d'.config.cfg.wifi_ssid ≡ ssid)
      × (provision_is_complete d'.config ≡ true)
      × (d'.tasks.system_evt ≡ event_set d.tasks.system_evt evt_provisioned)
provision_apply_json-entry ssid rest len d more less q some_byte short ready =
    let known : d ≡ record {
      config = record { cfg = d.config.cfg; ready = true };
      tasks = d.tasks;
      local = d.local;
    } =
      ap
        (λ b. record {
          config = record { cfg = d.config.cfg; ready = b };
          tasks = d.tasks;
          local = d.local;
        })
        ready in
    subst
      (λ x.
        Commissioned ssid d.tasks.system_evt
          (provision_apply_json (some (entry (codes "ssid") ssid rest)) len x))
      (sym known)
      (set_up-entry ssid rest len d.config.cfg d.local d.tasks more less q some_byte short)
