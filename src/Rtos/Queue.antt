-- ===== src/Rtos/Queue.antt =====
-- The queues of components/iot_rtos/src/iot_rtos.c for a Windows host: a ring of slots under two
-- counting semaphores. A slot of `item_size` bytes is one value; the mutex makes each call one step.
pub mod Fifo
pub mod Refine
pub mod Window
pub mod Bounded
pub mod FreeRtos
use esp32_iot_products.UseCase.Types.{set_at}
use esp32_iot_products.Core.Err.{Err, ok, timeout, queue_full}
use esp32_iot_products.Prelude.Words.{add32}
use esp32_iot_products.Prelude.{◌<◌, some, ℕ, ◌^◌, ◌≡◌, Option, suc, ◌+◌, ◌-◌, ◌%◌, none}

-- A semaphore of Windows whose count is at most `most`: a wait that times out, or takes one; and a
-- release below the maximum, which adds one.
pub record Semaphore (S : Type 0) (most : ℕ) : Type 0 where
  pub value : S → ℕ
  pub wait : S → Option S
  pub release : S → S
  pub wait-none : (s : S) → value s ≡ 0 → wait s ≡ none
  pub wait-some : (s : S) → 0 < value s → (s' : S) × (wait s ≡ some s') × (suc (value s') ≡ value s)
  pub value-release : (s : S) → value s < most → value (release s) ≡ suc (value s)

-- `iot_host_queue_t`
pub record HostQueue (A S : Type 0) : Type 0 where
  pub space : S
  pub items : S
  pub buf : ℕ → A
  pub head : ℕ
  pub tail : ℕ
  pub count : ℕ

module _ {A S : Type 0} (len : ℕ) (sem : Semaphore S len) where
  -- `host_q_send`, once `space` has been waited for.
  put : A → S → HostQueue A S → HostQueue A S
  put item space q = record {
    space = space;
    items = sem.release q.items;
    buf = set_at q.buf q.head item;
    head = add32 q.head 1 % len;
    tail = q.tail;
    count = add32 q.count 1;
  }

  -- `iot_queue_send` of a queue and an item that are not NULL.
  pub queue_send : A → HostQueue A S → Err × HostQueue A S
  queue_send item q = elim (sem.wait q.space) [
    | none ↦ (queue_full, q)
    | some space ↦ (ok, put item space q)
  ]

  -- `iot_queue_recv`, once `items` has been waited for.
  get : S → HostQueue A S → HostQueue A S
  get items q = record {
    space = sem.release q.space;
    items = items;
    buf = q.buf;
    head = q.head;
    tail = add32 q.tail 1 % len;
    count = (q.count + 2 ^ 32 - 1) % 2 ^ 32;
  }

  -- The item is `none` where nothing is written to `*item`.
  pub queue_recv : HostQueue A S → Err × Option A × HostQueue A S
  queue_recv q = elim (sem.wait q.items) [
    | none ↦ (timeout, none, q)
    | some items ↦ (ok, some (q.buf q.tail), get items q)
  ]

pub queue_waiting : {A S : Type 0} → HostQueue A S → ℕ
queue_waiting q = q.count
