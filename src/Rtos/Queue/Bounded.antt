-- ===== src/Rtos/Queue/Bounded.antt =====
-- What the tasks rely on of a queue of components/iot_rtos/include/iot_rtos.h, whatever port of
-- src/iot_rtos.c is built: an interface of operations and laws, which the Windows host's queue fills.
use esp32_iot_products.Core.Err.{Err, ok, timeout, queue_full}
use esp32_iot_products.Rtos.Queue.{Semaphore, HostQueue, queue_send, queue_recv}
use esp32_iot_products.Rtos.Queue.Refine.{length-contents}
use esp32_iot_products.Rtos.Queue.Fifo.{QueueSane, contents, queue_send_lem, queue_recv_lem}
use esp32_iot_products.Prelude.{
  ◌≡◌, inr, [], Option, ◌∙◌, ℕ, ◌∷◌, List, some, ◌^◌, inl, ◌++◌, none, ◌⊎◌, length, ◌<◌,
}

-- A queue of at most `len` items, oldest first. Both calls are those of a caller that does not
-- wait: a timeout is what a full or an empty queue leads to.
pub record BoundedQueue (A : Type 0) (len : ℕ) : Type 1 where
  pub Queue : Type 0
  pub send : A → Queue → Err × Queue
  pub recv : Queue → Err × Option A × Queue
  pub IsSane : Queue → Type 0
  pub items : Queue → List A
  pub send-law :
      (x : A) (q : Queue)
      → IsSane q
      → (((send x q).0 ≡ queue_full) × (length (items q) ≡ len) × ((send x q).1 ≡ q))
        ⊎ (((send x q).0 ≡ ok)
            × (length (items q) < len)
            × (items (send x q).1 ≡ items q ++ x ∷ [])
            × IsSane (send x q).1)
  pub recv-law :
      (q : Queue)
      → IsSane q
      → (((recv q).0 ≡ timeout) × ((recv q).1 ≡ none) × (items q ≡ []) × ((recv q).2 ≡ q))
        ⊎ (((recv q).0 ≡ ok)
            × ((x : A) × ((recv q).1 ≡ some x) × (items q ≡ x ∷ items (recv q).2))
            × IsSane (recv q).2)

module _ {A S : Type 0} (len : ℕ) (sem : Semaphore S len) (short : len < 2 ^ 32) where
  pub host_send-law :
      (x : A) (q : HostQueue A S)
      → QueueSane len sem q
      → (((queue_send len sem x q).0 ≡ queue_full)
          × (length (contents len sem q) ≡ len)
          × ((queue_send len sem x q).1 ≡ q))
        ⊎ (((queue_send len sem x q).0 ≡ ok)
            × (length (contents len sem q) < len)
            × (contents len sem (queue_send len sem x q).1 ≡ contents len sem q ++ x ∷ [])
            × QueueSane len sem (queue_send len sem x q).1)
  host_send-law x q v = elim (queue_send_lem len sem x q short v) [
    | inl (e, full, same) ↦ inl (e, length-contents len sem q ∙ full, same)
    | inr (e, room, cs, v') ↦ inr (e, rw (length-contents len sem q) room, cs, v')
  ]

  -- The queue of the Windows host.
  abbrev pub host_bounded : BoundedQueue A len
  host_bounded = record {
    Queue = HostQueue A S;
    send = queue_send len sem;
    recv = queue_recv len sem;
    IsSane = QueueSane len sem;
    items = contents len sem;
    send-law = host_send-law;
    recv-law = λ q v. queue_recv_lem len sem q short v;
  }
