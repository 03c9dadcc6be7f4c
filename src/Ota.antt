-- ===== src/Ota.antt =====
-- components/iot_ota/src/iot_ota.c, built for the host.
pub mod Download
use esp32_iot_products.CText.{Text, codes, starts_with}
use esp32_iot_products.Core.Err.{Err, ok, busy, denied}
use esp32_iot_products.Prelude.{false, none, not, take, true, if◌then◌else◌, Bool, Option, some}

-- `iot_ota_state_t`
pub data OtaState : Type 0 where
  idle downloading verify reboot fail rollback : OtaState

-- `s_state` and `s_url`
pub record Ota : Type 0 where
  pub state : OtaState
  pub url : Text

abbrev is_downloading : OtaState → Bool
is_downloading downloading = true
is_downloading _ = false

pub ota_init : Ota → Ota
ota_init o = record o { state = idle }

pub ota_start : Option Text → Ota → Err × Ota
ota_start none o = (denied, o)
ota_start (some url) o =
    if not (starts_with (codes "https://") url)
    then (denied, o)
    else (if is_downloading o.state
        then (busy, o)
        else (ok, record { state = verify; url = take 255 url }))

-- Nothing to cancel on the host.
pub ota_mark_valid : Err
ota_mark_valid = Err.ok
