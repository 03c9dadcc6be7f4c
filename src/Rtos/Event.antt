-- ===== src/Rtos/Event.antt =====
-- The event groups of components/iot_rtos/src/iot_rtos.c for a POSIX host: a word of 32 bits.
pub mod Flags
use Prim.Native.Nat.{bit_and, bit_or}
use esp32_iot_products.Prelude.Words.{u32_mod}
use esp32_iot_products.Prelude.{none, ◌-◌, ◌^◌, if◌then◌else◌, Bool, ℕ, Option, some}

-- `iot_event_t`: NULL, or the bits.
abbrev pub Event : Type 0
Event = Option ℕ

-- `~bits`
abbrev pub complement : ℕ → ℕ
complement bits = u32_mod - 1 - bits

unfoldable pub event_set : Event → ℕ → Event
event_set none bits = none
event_set (some cur) bits = some (bit_or cur bits)

unfoldable pub event_clear : Event → ℕ → Event
event_clear none bits = none
event_clear (some cur) bits = some (bit_and cur (complement bits))

-- The bits returned, and the group: the POSIX host does not wait, nor looks at `wait_all`.
unfoldable pub event_wait : Event → ℕ → Bool → ℕ × Event
event_wait none bits clear = (0, none)
event_wait (some cur) bits clear = (cur, if clear then event_clear (some cur) bits else some cur)

-- `IOT_EVT_…` of components/iot_rtos/include/iot_tasks.h
abbrev pub evt_wifi_ip : ℕ
evt_wifi_ip = 1

abbrev pub evt_mqtt_up : ℕ
evt_mqtt_up = 2

abbrev pub evt_provisioned : ℕ
evt_provisioned = 32

abbrev pub evt_shutdown : ℕ
evt_shutdown = 2 ^ 31
