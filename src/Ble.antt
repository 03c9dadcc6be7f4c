-- ===== src/Ble.antt =====
-- components/iot_ble/src/iot_ble.c: the GATT and GAP handlers of the ESP build, whose stack is NimBLE.
-- What NimBLE returns is an argument.
pub mod Sensor
use esp32_iot_products.CText.{Text, codes}
use esp32_iot_products.Core.Err.{Err, ok, invalid_arg, no_mem, EspCodes, err_from_idf}
use esp32_iot_products.Core.Types.{json_small_len, CommandMsg, zero_command, overwrite}
use esp32_iot_products.Prelude.Int.{ℤ, pos, eqb_ℤ, nonzero}
use esp32_iot_products.Rtos.Event.{Event, event_set}
use esp32_iot_products.Prelude.{
  List, false, ◌==◌, ltb, none, ◌&&◌, true, if◌then◌else◌, not, take, length, ℕ, some, Option, Bool,
}

-- `iot_ble_state_t`
pub data BleState : Type 0 where
  ble_idle ble_advertising ble_connected ble_paired : BleState

-- The static state, and the event group of the tasks' context. `cache` holds all its bytes.
pub record Ble : Type 0 where
  pub state : BleState
  pub connected : Bool
  pub name : Text
  pub cache : List ℕ
  pub sensor_len : ℕ
  pub conn : ℕ
  pub system_evt : Event

-- `sizeof(s_sensor_cache)`, and `BLE_ATT_ERR_…`, which are constants of NimBLE.
abbrev pub cache_len : ℕ
cache_len = 64

pub record AttErrors : Type 0 where
  pub insufficient_res : ℤ
  pub unlikely_error : ℤ

-- `struct ble_gatt_access_ctxt`: the operation on the characteristic, with the bytes of a write, as
-- many as `OS_MBUF_PKTLEN` tells.
pub data GattOp : Type 0 where
  reads other_access : GattOp
  writes : List ℕ → GattOp

-- What a read of the characteristic gives.
unfoldable pub read_value : ℕ → Bool → Ble → List ℕ
read_value uuid provisioned b =
    if uuid == 0xff02
    then take (if b.sensor_len == 0 then 2 else b.sensor_len) b.cache
    else (if uuid == 0xff04
        then codes "diag:ok"
        else (if uuid == 0xff05
            then codes "1.0.0"
            else (if uuid == 0xff01
                then (if provisioned then codes "prov=1" else codes "prov=0")
                else codes "ok")))

-- The command that a write makes.
unfoldable pub command_of_write : ℕ → List ℕ → CommandMsg
command_of_write uuid bytes =
    let n = if ltb json_small_len (length bytes) then json_small_len else length bytes in
    record zero_command {
      opcode = uuid;
      payload_len = n;
      payload = overwrite bytes n zero_command.payload;
    }

-- The code returned, the bytes of a reply, and the command that is put on the queue; `rc` is what
-- appending the reply returns.
pub gatt_access : AttErrors → ℤ → ℕ → GattOp → Bool → Ble → ℤ × Option (List ℕ) × Option CommandMsg
gatt_access k rc uuid reads provisioned b = (
  if eqb_ℤ rc (pos 0) then pos 0 else k.insufficient_res,
  some (read_value uuid provisioned b),
  none,
)
gatt_access k rc uuid (writes bytes) provisioned b =
    (pos 0, none, some (command_of_write uuid bytes))
gatt_access k rc uuid other_access provisioned b = (k.unlikely_error, none, none)

-- `rc` is what starting to advertise returns: 0 on the host. `already` is BLE_HS_EALREADY.
pub ble_start_advertising : ℤ → ℤ → Ble → Err × Ble
ble_start_advertising already rc b =
    if nonzero rc && not (eqb_ℤ rc already)
    then (Err.fail, b)
    else (ok, record b { state = ble_advertising })

pub ble_stop_advertising : Ble → Err × Ble
ble_stop_advertising b = (ok, record b { state = ble_idle })

-- `struct ble_gap_event`: a connection that was made, with its handle, or that failed; and its end.
pub data GapEvent : Type 0 where
  gap_connected : ℕ → GapEvent
  gap_failed gap_disconnected other_gap_event : GapEvent

-- `IOT_EVT_BLE_CONN`
abbrev pub evt_ble_conn : ℕ
evt_ble_conn = 4

pub gap_event : ℤ → ℤ → GapEvent → Ble → Ble
gap_event already rc (gap_connected handle) b = record b {
  conn = handle;
  connected = true;
  state = ble_connected;
  system_evt = event_set b.system_evt evt_ble_conn;
}
gap_event already rc gap_failed b =
    (ble_start_advertising already rc (record b { state = ble_advertising })).1
gap_event already rc gap_disconnected b =
    (ble_start_advertising already rc (record b { connected = false; state = ble_advertising })).1
gap_event already rc other_gap_event b = b

-- `strncpy(s_name, device_name, 31)` behind which a NUL stands; `code` is what starting NimBLE
-- returns: 0 on the host.
pub ble_init : EspCodes → ℤ → Option Text → Ble → Err × Ble
ble_init k code device_name b =
    let named : Ble = elim device_name [ none ↦ b | some t ↦ record b { name = take 31 t } ] in
    elim (err_from_idf k code) [
      | ok ↦ (ok, record named { state = ble_advertising })
      | e ↦ (e, named)
    ]

-- The end of the function, in the ESP build: `buffer` tells whether there is one, `rc` what notifying
-- returns.
notify : Bool → ℤ → Ble → Err × Ble
notify buffer rc b =
    if not b.connected
    then (ok, b)
    else (if not buffer then (no_mem, b) else (if eqb_ℤ rc (pos 0) then ok else Err.fail, b))

-- `bytes` may be NULL; `len` of them count.
pub ble_notify_sensor : Bool → ℤ → Option (List ℕ) → ℕ → Ble → Err × Ble
ble_notify_sensor buffer rc none len b = (invalid_arg, b)
ble_notify_sensor buffer rc (some bytes) len b =
    let n = if ltb cache_len len then cache_len else len in
    if len == 0
    then (invalid_arg, b)
    else notify buffer rc (record b { cache = overwrite bytes n b.cache; sensor_len = n })
