-- ===== src/Rtos/Queue/FreeRtos.antt =====
-- The queue functions of components/iot_rtos/src/iot_rtos.c in the ESP build: wrappers around the
-- queues of FreeRTOS, which are a parameter. Queues and items are not NULL.
use esp32_iot_products.Core.Err.{Err, ok, timeout, queue_full}
use esp32_iot_products.Rtos.Queue.Bounded.{BoundedQueue}
use esp32_iot_products.Prelude.{
  ◌≡◌, ap, inr, arith, List-cases, [], ltb, true, Option, ◌∙◌, tests, ℕ, ◌∷◌, List, some, inl, ◌++◌,
  if◌then◌else◌, none, false, ◌⊎◌, Bool, length, ◌≤◌, ◌<◌, sym, Bool-cases, refl, length-append,
  not,
}

-- The two calls of FreeRTOS that do not wait, and what its manual says of them: a bounded queue,
-- first in, first out. `items` is what a handle's queue holds, the oldest first.
pub record QueueKernel (A H : Type 0) (len : ℕ) : Type 0 where
  pub items : H → List A
  pub x_queue_send : A → H → Bool × H
  pub x_queue_receive : H → Option A × H
  pub send-room :
      (x : A) (h : H)
      → length (items h) < len
      → ((x_queue_send x h).0 ≡ true) × (items (x_queue_send x h).1 ≡ items h ++ x ∷ [])
  pub send-full : (x : A) (h : H) → length (items h) ≡ len → x_queue_send x h ≡ (false, h)
  pub receive-item :
      (h : H) (x : A) (xs : List A)
      → items h ≡ x ∷ xs
      → ((x_queue_receive h).0 ≡ some x) × (items (x_queue_receive h).1 ≡ xs)
  pub receive-empty : (h : H) → items h ≡ [] → x_queue_receive h ≡ (none, h)

module _ {A H : Type 0} (len : ℕ) (kernel : QueueKernel A H len) where
  pub esp_queue_send : A → H → Err × H
  esp_queue_send x h =
      let (sent, h') = kernel.x_queue_send x h in (if sent then ok else queue_full, h')

  -- From an interrupt; `pointers` tells that neither is NULL, `hp` that `hp_woken` is not, `wakes` what
  -- FreeRTOS writes there. The last part is what `*hp_woken` becomes, if it is written.
  pub esp_queue_send_from_isr : Bool → Bool → Bool → A → H → Err × H × Option Bool
  esp_queue_send_from_isr pointers hp wakes x h =
      let (sent, h') = kernel.x_queue_send x h in
      if not pointers
      then (Err.isr, h, none)
      else (if sent then ok else queue_full, h', if hp then some wakes else none)

  pub esp_queue_recv : H → Err × Option A × H
  esp_queue_recv h =
      let (item, h') = kernel.x_queue_receive h in
      (elim item [ none ↦ timeout | some x ↦ ok ], item, h')

  -- With pointers that are not NULL, a task and an interrupt get the same answer, and leave the same
  -- queue.
  pub esp_queue_send_from_isr-send :
      (hp wakes : Bool) (x : A) (h : H)
      → let (e, h', w) = esp_queue_send_from_isr true hp wakes x h in (e, h') ≡ esp_queue_send x h
  unfolding esp_queue_send_from_isr esp_queue_send
  esp_queue_send_from_isr-send hp wakes x h = refl

  pub esp_send-law :
      (x : A) (h : H)
      → length (kernel.items h) ≤ len
      → (((esp_queue_send x h).0 ≡ queue_full)
          × (length (kernel.items h) ≡ len)
          × ((esp_queue_send x h).1 ≡ h))
        ⊎ (((esp_queue_send x h).0 ≡ ok)
            × (length (kernel.items h) < len)
            × (kernel.items (esp_queue_send x h).1 ≡ kernel.items h ++ x ∷ [])
            × (length (kernel.items (esp_queue_send x h).1) ≤ len))
  unfolding esp_queue_send
  esp_send-law x h v = elim (Bool-cases (ltb (length (kernel.items h)) len)) [
    | inl p ↦
        let room : length (kernel.items h) < len = omega (tests, p) in
        let (sent, more) = kernel.send-room x h room in
        inr (
          rw sent refl,
          room,
          more,
          rw more (ground (arith, room, length-append (kernel.items h) (x ∷ []))),
        )
    | inr p ↦
        let full : length (kernel.items h) ≡ len = ground (arith, p, v) in
        rw (kernel.send-full x h full) (inl (refl, full, refl))
  ]

  pub esp_recv-law :
      (h : H)
      → length (kernel.items h) ≤ len
      → (((esp_queue_recv h).0 ≡ timeout)
          × ((esp_queue_recv h).1 ≡ none)
          × (kernel.items h ≡ [])
          × ((esp_queue_recv h).2 ≡ h))
        ⊎ (((esp_queue_recv h).0 ≡ ok)
            × ((x : A) × ((esp_queue_recv h).1 ≡ some x)
                × (kernel.items h ≡ x ∷ kernel.items (esp_queue_recv h).2))
            × (length (kernel.items (esp_queue_recv h).2) ≤ len))
  unfolding esp_queue_recv
  esp_recv-law h v = elim (List-cases (kernel.items h)) [
    | inl e ↦ rw (kernel.receive-empty h e) (inl (refl, refl, e, refl))
    | inr (x, xs, e) ↦
        let (got, rest) = kernel.receive-item h x xs e in
        inr
          (rw got refl, (x, got, e ∙ ap (λ ys. x ∷ ys) (sym rest)), rw rest (ground (arith, e, v)))
  ]

  -- The queue of the ESP build.
  abbrev pub esp_bounded : BoundedQueue A len
  esp_bounded = record {
    Queue = H;
    send = esp_queue_send;
    recv = esp_queue_recv;
    IsSane = λ h. length (kernel.items h) ≤ len;
    items = kernel.items;
    send-law = esp_send-law;
    recv-law = esp_recv-law;
  }
