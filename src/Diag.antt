-- ===== src/Diag.antt =====
-- components/iot_diag/src/iot_diag.c, built for the host. The clock `iot_millis()` is an argument.
use esp32_iot_products.CText.{Text, codes, snprintf, show_u, concat}
use esp32_iot_products.Core.Err.{Err, ok, overflow}
use esp32_iot_products.Prelude.Words.{u32_mod, add32}
use esp32_iot_products.Prelude.{◌%◌, ◌+◌, length, ◌-◌, if◌then◌else◌, ◌/◌, leb, ℕ, ◌∷◌, []}

-- `iot_diag_id_t`
pub data DiagId : Type 0 where
  diag_ok wifi_connect_fail mqtt_disconnect sensor_timeout uart_error i2c_error spi_error : DiagId
  watchdog_reset ota_fail heap_low stack_low cmd_reject ble_disconnect : DiagId

unfoldable pub diag_num : DiagId → ℕ
diag_num diag_ok = 0
diag_num wifi_connect_fail = 0x1001
diag_num mqtt_disconnect = 0x1002
diag_num sensor_timeout = 0x1003
diag_num uart_error = 0x1004
diag_num i2c_error = 0x1005
diag_num spi_error = 0x1006
diag_num watchdog_reset = 0x1007
diag_num ota_fail = 0x1008
diag_num heap_low = 0x1009
diag_num stack_low = 0x100a
diag_num cmd_reject = 0x100b
diag_num ble_disconnect = 0x100c

-- The static counters.
pub record Diag : Type 0 where
  pub wifi_fails : ℕ
  pub mqtt_disc : ℕ
  pub sensor_to : ℕ
  pub wdt : ℕ
  pub last : ℕ
  pub boot_ms : ℕ

-- `x++` of a `uint32_t`
abbrev bump : ℕ → ℕ
bump x = add32 x 1

unfoldable pub count : DiagId → Diag → Diag
count wifi_connect_fail d = record d { wifi_fails = bump d.wifi_fails }
count mqtt_disconnect d = record d { mqtt_disc = bump d.mqtt_disc }
count sensor_timeout d = record d { sensor_to = bump d.sensor_to }
count watchdog_reset d = record d { wdt = bump d.wdt }
count _ d = d

unfoldable pub diag_event : DiagId → Diag → Diag
diag_event id d = count id (record d { last = diag_num id })

pub diag_isr_bump : DiagId → Diag → Diag
diag_isr_bump sensor_timeout d = record d {
  last = diag_num sensor_timeout;
  sensor_to = bump d.sensor_to;
}
diag_isr_bump watchdog_reset d = record d { last = diag_num watchdog_reset; wdt = bump d.wdt }
diag_isr_bump id d = record d { last = diag_num id }

pub diag_init : ℕ → Diag → Diag
diag_init millis d = record d { boot_ms = millis }

-- `iot_diag_snapshot_t`
pub record Snapshot : Type 0 where
  pub uptime_s : ℕ
  pub free_heap : ℕ
  pub min_heap : ℕ
  pub wifi_fails : ℕ
  pub mqtt_disconnects : ℕ
  pub sensor_timeouts : ℕ
  pub wdt_events : ℕ
  pub last_event : ℕ
  pub cpu_pct : ℕ

pub diag_snapshot : ℕ → Diag → Snapshot
diag_snapshot millis d = record {
  uptime_s = (millis + u32_mod - d.boot_ms) % u32_mod / 1000;
  free_heap = 256000;
  min_heap = 200000;
  wifi_fails = d.wifi_fails;
  mqtt_disconnects = d.mqtt_disc;
  sensor_timeouts = d.sensor_to;
  wdt_events = d.wdt;
  last_event = d.last;
  cpu_pct = 12;
}

-- The whole text, before it is cut to the buffer.
snapshot_text : Snapshot → Text
snapshot_text s = concat (
    codes "{\"uptime\":"
    ∷ show_u s.uptime_s
    ∷ codes ",\"heap\":"
    ∷ show_u s.free_heap
    ∷ codes ",\"min_heap\":"
    ∷ show_u s.min_heap
    ∷ codes ",\"wifi_fail\":"
    ∷ show_u s.wifi_fails
    ∷ codes ",\"mqtt_disc\":"
    ∷ show_u s.mqtt_disconnects
    ∷ codes ",\"sensor_to\":"
    ∷ show_u s.sensor_timeouts
    ∷ codes ",\"wdt\":"
    ∷ show_u s.wdt_events
    ∷ codes ",\"last\":"
    ∷ show_u s.last_event
    ∷ codes "}"
    ∷ [])

-- The value returned, and what the buffer of `len` bytes holds.
pub diag_snapshot_json : ℕ → ℕ → Diag → Err × Text
diag_snapshot_json len millis d =
    let text = snapshot_text (diag_snapshot millis d) in
    (if leb len (length text) then overflow else ok, snprintf len text)
