-- ===== src/Rtos/Start.antt =====
-- iot_tasks_start of components/iot_rtos/src/iot_tasks.c: the objects and the tasks that it creates.
pub mod Order
use esp32_iot_products.UseCase.Types.{set_at}
use esp32_iot_products.Core.Err.{Err, ok, already_init}
use esp32_iot_products.Prelude.{some, if◌then◌else◌, ◌∷◌, ◌+◌, List, ℕ, Bool, Option, [], true}

-- The members of `iot_task_ctx_t` that it fills.
pub data Slot : Type 0 where
  sample_q telemetry_q command_q sensor_isr_sem sample_lock system_evt : Slot
  sensor_task proc_task cmd_task diag_task wdt_task : Slot

unfoldable pub slot_num : Slot → ℕ
slot_num sample_q = 0
slot_num telemetry_q = 1
slot_num command_q = 2
slot_num sensor_isr_sem = 3
slot_num sample_lock = 4
slot_num system_evt = 5
slot_num sensor_task = 6
slot_num proc_task = 7
slot_num cmd_task = 8
slot_num diag_task = 9
slot_num wdt_task = 10

-- `s_ctx`, as handles or NULL, `s_started`, and how often the semaphore has been given.
pub record Start : Type 0 where
  pub ctx : ℕ → Option ℕ
  pub started : Bool
  pub gives : ℕ

-- `if (IOT_FAIL(e)) return e;`
pub if_ok : Err × Start → (Start → Err × Start) → Err × Start
if_ok (ok, s) next = next s
if_ok (e, s) next = (e, s)

objects : List Slot
objects = sample_q ∷ telemetry_q ∷ command_q ∷ sensor_isr_sem ∷ sample_lock ∷ system_evt ∷ []

tasks : List Slot
tasks = sensor_task ∷ proc_task ∷ cmd_task ∷ diag_task ∷ wdt_task ∷ []

-- `iot_sem_give(s_ctx.sensor_isr_sem);`
give : Start → Start
give s = record s { gives = s.gives + 1 }

module _ (made : Slot → Err × ℕ) where
  -- A creation returns a code, and on success a handle.
  make : Slot → Start → Err × Start
  make x s =
      let (e, handle) = made x in
      if_ok (e, s) (λ t. (ok, record t { ctx = set_at t.ctx (slot_num x) (some handle) }))

  make_all : List Slot → Start → Err × Start
  make_all [] s = (ok, s)
  make_all (x ∷ xs) s = if_ok (make x s) (make_all xs)

  -- What follows the test of `s_started`.
  start_all : Start → Err × Start
  start_all s =
      if_ok (make_all objects s)
        (λ t. if_ok (make_all tasks (give t)) (λ u. (ok, record u { started = true })))

  pub tasks_start : Start → Err × Start
  tasks_start s = if s.started then (already_init, s) else start_all s
