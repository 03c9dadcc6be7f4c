-- ===== src/Ota/Download.antt =====
-- The ESP build of components/iot_ota/src/iot_ota.c: the task that downloads an update. What
-- esp_https_ota_* return is a parameter.
pub mod Outcome
use esp32_iot_products.CText.{Text, codes, starts_with}
use esp32_iot_products.Ota.{OtaState, downloading, reboot, Ota, is_downloading}
use esp32_iot_products.Core.Err.{Err, busy, denied}
use esp32_iot_products.Prelude.Int.{ℤ, pos, eqb_ℤ}
use esp32_iot_products.Rtos.Event.{Event, event_set, event_clear}
use esp32_iot_products.Prelude.{
  Option, take, suc, not, some, ℕ, if◌then◌else◌, Bool, ◌+◌, none, ◌&&◌, zero,
}

-- `IOT_EVT_OTA_BUSY`
abbrev pub evt_ota_busy : ℕ
evt_ota_busy = 8

-- `iot_ota_start`: the task is created, and sets the state itself once it runs.
pub ota_start_esp : Err → Option Text → Ota → Err × Ota
ota_start_esp created none o = (denied, o)
ota_start_esp created (some url) o =
    if not (starts_with (codes "https://") url)
    then (denied, o)
    else (if is_downloading o.state then (busy, o) else (created, record o { url = take 255 url }))

-- The answers of ESP-IDF; the n-th call of `esp_https_ota_perform`, from 0, answers `perform n`.
pub record OtaCalls : Type 0 where
  pub in_progress : ℤ
  pub begin : ℤ
  pub perform : ℕ → ℤ
  pub complete : Bool
  pub finish : ℤ

-- How the task ends; `spinning` is a loop that has used up its fuel.
pub data TaskEnd : Type 0 where
  deleted restarted spinning : TaskEnd

-- The statics of the file and the event group of the tasks.
pub record OtaTask : Type 0 where
  pub ota : Ota
  pub system_evt : Event

enter_state : OtaState → OtaTask → OtaTask
enter_state s t = let o = t.ota in record t { ota = record o { state = s } }

-- The end of the task, at the label `done`.
finish_task : OtaTask → TaskEnd × OtaTask
finish_task t = (deleted, record t { system_evt = event_clear t.system_evt evt_ota_busy })

module _ (c : OtaCalls) where
  -- The loop from its i-th round: the first answer that is not `in_progress`.
  perform_loop : ℕ → ℕ → Option ℤ
  perform_loop zero i = none
  perform_loop (suc fuel) i =
      let rest = perform_loop fuel (i + 1) in
      if eqb_ℤ (c.perform i) c.in_progress then rest else some (c.perform i)

  -- What follows the loop, and its last answer.
  after_loop : ℤ → OtaTask → TaskEnd × OtaTask
  after_loop err t =
      if c.complete && eqb_ℤ err (pos 0)
      then (if eqb_ℤ c.finish (pos 0)
          then (restarted, enter_state reboot t)
          else finish_task (enter_state OtaState.fail t))
      else finish_task (enter_state OtaState.fail t)

  pub ota_task : ℕ → OtaTask → TaskEnd × OtaTask
  ota_task fuel t =
      let t' = record t { system_evt = event_set t.system_evt evt_ota_busy } in
      let d = enter_state downloading t' in
      if not (eqb_ℤ c.begin (pos 0))
      then finish_task (enter_state OtaState.fail d)
      else elim (perform_loop fuel 0) [ none ↦ (spinning, d) | some err ↦ after_loop err d ]
