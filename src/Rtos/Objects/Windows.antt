-- ===== src/Rtos/Objects/Windows.antt =====
-- The queues and event groups of components/iot_rtos/src/iot_rtos.c for a Windows host: how they are
-- made of several objects of the system, and taken apart.
pub mod Whole
pub mod Events
use esp32_iot_products.Core.Err.{Err, ok, invalid_arg, no_mem}
use esp32_iot_products.Rtos.Objects.{M, pure, ◌>>◌, close, close_if, missing, request, ◌>>=◌}
use esp32_iot_products.Prelude.{◌||◌, none, Bool, not, ℕ, Option, some, if◌then◌else◌, ◌==◌}

-- The handles of an `iot_host_queue_t`, itself included.
pub record QueueParts : Type 0 where
  pub self : ℕ
  pub buf : Option ℕ
  pub mtx : Option ℕ
  pub space : Option ℕ
  pub items : Option ℕ

-- `iot_queue_delete`
unfoldable pub queue_delete : Option QueueParts → M (Unit {0})
queue_delete none = pure tt
queue_delete (some q) = do
  close_if q.mtx
  close_if q.space
  close_if q.items
  close_if q.buf
  close q.self

-- `iot_host_event_t`
pub record EventParts : Type 0 where
  pub self : ℕ
  pub mtx : Option ℕ

-- `iot_event_delete`
unfoldable pub event_delete : Option EventParts → M (Unit {0})
event_delete none = pure tt
event_delete (some e) = close_if e.mtx >> close e.self

-- The last test of `iot_queue_create`.
unfoldable pub settle_queue : QueueParts → M (Err × Option QueueParts)
settle_queue q =
    if missing q.buf || missing q.mtx || missing q.space || missing q.items
    then queue_delete (some q) >> pure (no_mem, none)
    else pure (ok, some q)

module _ (grants : ℕ → Bool) where
  -- The parts of a block that has been handed out.
  finish_queue : ℕ → M (Err × Option QueueParts)
  finish_queue self = do
    buf ← request grants
    mtx ← request grants
    space ← request grants
    items ← request grants
    settle_queue (record { self = self; buf = buf; mtx = mtx; space = space; items = items })

  queue_block : Option ℕ → M (Err × Option QueueParts)
  queue_block none = pure (no_mem, none)
  queue_block (some self) = finish_queue self

  -- `iot_queue_create`; `out` tells that the pointer is not NULL.
  pub queue_create : ℕ → ℕ → Bool → M (Err × Option QueueParts)
  queue_create len item_size out =
      if not out || len == 0 || item_size == 0
      then pure (invalid_arg, none)
      else do self ← request grants; queue_block self

  finish_event : Bool → Option ℕ → M (Err × Option EventParts)
  finish_event out none = pure (no_mem, none)
  finish_event out (some e) =
      if not out
      then close e >> pure (no_mem, none)
      else do mtx ← request grants; pure (ok, some (record { self = e; mtx = mtx }))

  -- `iot_event_create`: that the mutex may be missing is not tested.
  pub event_create : Bool → M (Err × Option EventParts)
  event_create out = do e ← request grants; finish_event out e
