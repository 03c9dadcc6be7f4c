-- ===== src/Rtos/Tasks.antt =====
-- The shared state of components/iot_rtos/src/iot_tasks.c, and the request to shut down.
use esp32_iot_products.Rtos.Event.{Event, event_set, evt_shutdown}
use esp32_iot_products.Prelude.{true, Bool}

-- `s_shutdown`, and of `s_ctx` the event group.
pub record Tasks : Type 0 where
  pub shutdown : Bool
  pub system_evt : Event

pub tasks_request_shutdown : Tasks → Tasks
tasks_request_shutdown t = record {
  shutdown = true;
  system_evt = event_set t.system_evt evt_shutdown;
}
