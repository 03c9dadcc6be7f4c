-- ===== src/Tests/Objects.antt =====
-- Objects of the system, and the settings in the NVS.
use esp32_iot_products.Rtos.Objects.{Kernel}
use esp32_iot_products.CText.{Text, codes, text_eq}
use esp32_iot_products.Core.Config.{RuntimeCfg, defaults, config_init, Config}
use esp32_iot_products.Core.Err.{ok}
use Prim.Native.Nat.{zero, suc}
use esp32_iot_products.Core.Nvs.{
  set_all, entries, store_cfg, Entry, str_entry, u32_entry, u8_entry, Nvs, config_load_nvs,
  config_save_nvs,
}
use esp32_iot_products.Core.Nvs.RoundTrip.{CfgFits, config_load_nvs-config_save_nvs}
use esp32_iot_products.Prelude.Int.{pos}
use esp32_iot_products.Rtos.Objects.Port.{Sane}
use esp32_iot_products.Rtos.Objects.Windows.{QueueParts}
use esp32_iot_products.Rtos.Objects.Ledger.{Ledger, LedgerAct, creates, deletes, ledger_acts}
use esp32_iot_products.Rtos.Objects.Windows.Whole.{queue_port}
use esp32_iot_products.Rtos.Objects.Ledger.Balance.{owns}
use esp32_iot_products.Prelude.{
  ltb, if◌then◌else◌, List, ◌∷◌, ◌==◌, ◌∙◌, length, lt→ltb, ap, arith, not, Option, false, [], Bool,
  refl, ℕ, none, true, ◌<◌, ◌||◌, some, ◌≡◌, ltb→lt, suc,
}
use esp32_iot_products.Tests.Tasks.{esp_codes}
use esp32_iot_products.Rtos.Objects.Ledger.Queues.{ledger_acts-queue_port}

-- A system that has handed out one handle and refuses the fourth request from now on.
abbrev system : Kernel
system = record { asked = 1; live = λ h. h == 0 }

abbrev short_of : ℕ → Bool
short_of n = not (n == 4)

system-Sane : Sane system
system-Sane h e = ground (arith, e)

abbrev ledger_calls : List LedgerAct
ledger_calls = creates ∷ creates ∷ creates ∷ deletes 1 ∷ deletes 7 ∷ []

ledger_acts-queue_port_example :
    (l : Ledger QueueParts) × (ledger_acts
        (queue_port short_of 8 4 true)
        ledger_calls
        (some (record { kernel = system; held = [] }))
      ≡ some l)
    × ((h : ℕ) → l.kernel.live h ≡ (owns (queue_port short_of 8 4 true) l.held h || system.live h))
    × ((h : ℕ) → owns (queue_port short_of 8 4 true) l.held h ≡ true → system.live h ≡ false)
ledger_acts-queue_port_example =
    ledger_acts-queue_port short_of 8 4 true ledger_calls system system-Sane

-- A partition: what is written, what is committed, and how many writes still fit.
abbrev Partition : Type 0
Partition = (Text → Option Entry) × (Text → Option Entry) × ℕ

abbrev string_of : ℕ → Option Entry → Option Text
string_of size (some (str_entry t)) = if ltb (length t) size then some t else none
string_of size other = none

abbrev word_of : Option Entry → Option ℕ
word_of (some (u32_entry n)) = some n
word_of other = none

abbrev byte_of : Option Entry → Option ℕ
byte_of (some (u8_entry n)) = some n
byte_of other = none

string_of-found :
    (t : Text) (size : ℕ) → length t < size → string_of size (some (str_entry t)) ≡ some t
string_of-found t size h = rw (lt→ltb (length t) size h) refl

abbrev put_entry : Text → Entry → Partition → Bool × Partition
put_entry key e (now, kept, zero) = (false, (now, kept, 0))
put_entry key e (now, kept, suc room) =
    (true, ((λ other. if text_eq key other then some e else now other), kept, room))

put_entry-found :
    (key other : Text) (e : Entry) (s : Partition)
    → (put_entry key e s).0 ≡ true
    → (put_entry key e s).1.0 other ≡ (if text_eq key other then some e else s.0 other)
put_entry-found key other e (now, kept, zero) h = ground (arith, h)
put_entry-found key other e (now, kept, suc room) h = refl

abbrev partition_nvs : Nvs Partition
partition_nvs = record {
  find = λ key s. s.0 key;
  set = put_entry;
  commit = λ s. (true, (s.0, s.0, s.2));
  restart = λ s. (s.1, s.1, s.2);
  get_str = λ key size s. string_of size (s.0 key);
  get_u32 = λ key s. word_of (s.0 key);
  get_u8 = λ key s. byte_of (s.0 key);
  find-set = put_entry-found;
  find-restart = λ key s h. refl;
  get_str-found = λ key t size s e h. ap (string_of size) e ∙ string_of-found t size h;
  get_u32-found = λ key n s e. ap word_of e;
  get_u8-found = λ key n s e. ap byte_of e;
}

abbrev settings : RuntimeCfg
settings = record defaults { wifi_ssid = codes "plant"; cloud = pos 2; provisioned = true }

settings-CfgFits : CfgFits settings
unfolding defaults codes
settings-CfgFits = record {
  device_id = ltb→lt _ _ refl;
  wifi_ssid = ltb→lt _ _ refl;
  wifi_pass = ltb→lt _ _ refl;
  mqtt_uri = ltb→lt _ _ refl;
  mqtt_user = ltb→lt _ _ refl;
  mqtt_pass = ltb→lt _ _ refl;
  provider = 2;
  cloud = refl;
  byte = ltb→lt _ _ refl;
}

abbrev stopped : Config
stopped = record { cfg = defaults; ready = false }

abbrev running : Config
running = record { cfg = defaults; ready = true }

-- Nothing stored, and room for ten writes.
abbrev blank : Partition
blank = ((λ key. none), (λ key. none), 10)

blank-store_cfg : (store_cfg partition_nvs settings blank).0 ≡ true
unfolding store_cfg set_all entries
blank-store_cfg = refl

config_load_nvs-config_save_nvs_example :
    let (e, saved, s') =
      config_save_nvs partition_nvs esp_codes (pos 0) (some settings) running blank in
    let (e', loaded, memory') =
      config_load_nvs partition_nvs
        (pos 0)
        true
        (partition_nvs.restart s')
        defaults
        (config_init stopped).1 in
    (e ≡ ok) × (e' ≡ ok) × (loaded ≡ settings) × (memory'.cfg ≡ settings)
config_load_nvs-config_save_nvs_example =
    config_load_nvs-config_save_nvs partition_nvs esp_codes settings defaults running stopped blank
      settings-CfgFits refl blank-store_cfg
