-- ===== src/Rtos/Queue/Fifo.antt =====
-- The queue of the Windows host keeps its items in the order in which they were sent.
-- What the fields of a queue say of each other: `head` is the slot behind the items, and the two
-- semaphores count the free and the used slots.
use native.Mathlib.Nat.{mod-add-mod, mod-lt}
use esp32_iot_products.Core.Err.{ok, timeout, queue_full}
use esp32_iot_products.Prelude.Words.{add32}
use esp32_iot_products.Rtos.Queue.{Semaphore, HostQueue, queue_send, queue_recv, put, get}
use esp32_iot_products.Rtos.Queue.Window.{
  window, window-step, window-set_at, step-mod, suc-one, plus_one, minus_one,
}
use esp32_iot_products.Prelude.{
  ◌-◌, ◌++◌, ℕ, ◌∙◌, ◌%◌, none, inr, ltb, [], suc, ◌≡◌, ap, ◌<◌, arith, Bool-cases, ◌^◌, some, refl,
  sym, List, ◌⊎◌, inl, ◌+◌, ◌∷◌,
}

pub record QueueSane {A S : Type 0} (len : ℕ) (sem : Semaphore S len) (q : HostQueue A S)
    : Type 0 where
  pub tail_in : q.tail < len
  pub head_at : q.head ≡ (q.tail + q.count) % len
  pub free : sem.value q.space + q.count ≡ len
  pub used : sem.value q.items ≡ q.count

module _ {A S : Type 0} (len : ℕ) (sem : Semaphore S len) where
  -- The items, oldest first.
  abbrev pub contents : HostQueue A S → List A
  contents q = window len q.buf q.tail q.count

  put-contents :
      (x : A) (s : S) (q : HostQueue A S)
      → len < 2 ^ 32
      → QueueSane len sem q
      → q.count < len
      → contents (put len sem x s q) ≡ contents q ++ x ∷ []
  unfolding put
  put-contents x s q short v room =
      rw (plus_one q.count (omega arith))
        (window-set_at len q.buf x q.count q.tail q.head v.tail_in room v.head_at)

  put-QueueSane :
      (x : A) (s : S) (q : HostQueue A S)
      → len < 2 ^ 32
      → QueueSane len sem q
      → suc (sem.value s) ≡ sem.value q.space
      → QueueSane len sem (put len sem x s q)
  unfolding put
  put-QueueSane x s q short v took =
      let room : q.count < len = ground (arith, v.free, took) in
      let one : add32 q.count 1 ≡ suc q.count = plus_one q.count (omega arith) in
      let released = sem.value-release q.items (ground (arith, v.used, room)) in
      record {
        tail_in = v.tail_in;
        head_at =
            step-mod len q.head (q.tail + q.count) short v.head_at (ground (arith, room))
            ∙ ap (λ k. k % len) (ground (arith, one));
        free = ground (arith, one, v.free, took);
        used = ground (arith, one, released, v.used);
      }

  get-contents :
      (s : S) (q : HostQueue A S)
      → len < 2 ^ 32
      → QueueSane len sem q
      → 0 < q.count
      → contents q ≡ q.buf q.tail ∷ contents (get len sem s q)
  unfolding get
  get-contents s q short v some_left =
      let fewer = minus_one q.count some_left (ground (arith, v.free)) in
      let on = plus_one q.tail (ground (arith, v.tail_in)) in
      rw (on, fewer, sym (suc-one q.tail)) (window-step len q.buf q.tail q.count some_left)

  get-QueueSane :
      (s : S) (q : HostQueue A S)
      → len < 2 ^ 32
      → QueueSane len sem q
      → suc (sem.value s) ≡ sem.value q.items
      → QueueSane len sem (get len sem s q)
  unfolding get
  get-QueueSane s q short v took =
      let some_left : 0 < q.count = ground (arith, v.used, took) in
      let fewer = minus_one q.count some_left (ground (arith, v.free)) in
      let released = sem.value-release q.space (ground (arith, v.free, some_left)) in
      record {
        tail_in = mod-lt (add32 q.tail 1) (ground (arith, v.tail_in));
        head_at =
            rw (plus_one q.tail (ground (arith, v.tail_in)), fewer, sym (suc-one q.tail))
              (v.head_at
                ∙ sym (
                    mod-add-mod (q.tail + 1) len (q.count - 1)
                    ∙ ap (λ k. k % len) (omega (arith, some_left))));
        free = ground (arith, fewer, released, v.free, some_left);
        used = ground (arith, fewer, took, v.used);
      }

  queue_send-sent :
      (x : A) (q : HostQueue A S) (s : S)
      → sem.wait q.space ≡ some s
      → queue_send len sem x q ≡ (ok, put len sem x s q)
  unfolding queue_send
  queue_send-sent x q s e = ground (arith, e)

  queue_send-refused :
      (x : A) (q : HostQueue A S)
      → sem.wait q.space ≡ none
      → queue_send len sem x q ≡ (queue_full, q)
  unfolding queue_send
  queue_send-refused x q e = ground (arith, e)

  queue_recv-taken :
      (q : HostQueue A S) (s : S)
      → sem.wait q.items ≡ some s
      → queue_recv len sem q ≡ (ok, some (q.buf q.tail), get len sem s q)
  unfolding queue_recv
  queue_recv-taken q s e = ground (arith, e)

  queue_recv-refused :
      (q : HostQueue A S) → sem.wait q.items ≡ none → queue_recv len sem q ≡ (timeout, none, q)
  unfolding queue_recv
  queue_recv-refused q e = ground (arith, e)

  -- Sending puts the item behind all others, or reports that all slots are used and leaves the queue.
  pub queue_send_lem :
      (x : A) (q : HostQueue A S)
      → len < 2 ^ 32
      → QueueSane len sem q
      → let (e, q') = queue_send len sem x q in
        ((e ≡ queue_full) × (q.count ≡ len) × (q' ≡ q))
        ⊎ ((e ≡ ok) × (q.count < len) × (contents q' ≡ contents q ++ x ∷ []) × QueueSane len sem q')
  queue_send_lem x q short v = elim (Bool-cases (ltb 0 (sem.value q.space))) [
    | inl p ↦
        let took = sem.wait-some q.space (ground (arith, p)) in
        let room : q.count < len = ground (arith, v.free, p) in
        rw (queue_send-sent x q took.0 took.1) (
          inr (
            refl,
            room,
            put-contents x took.0 q short v room,
            put-QueueSane x took.0 q short v took.2,
          ))
    | inr p ↦
        rw (queue_send-refused x q (sem.wait-none q.space (ground (arith, p))))
          (inl (refl, ground (arith, v.free, p), refl))
  ]

  -- Receiving takes the oldest item, or reports that there is none and leaves the queue.
  pub queue_recv_lem :
      (q : HostQueue A S)
      → len < 2 ^ 32
      → QueueSane len sem q
      → let (e, item, q') = queue_recv len sem q in
        ((e ≡ timeout) × (item ≡ none) × (contents q ≡ []) × (q' ≡ q))
        ⊎ ((e ≡ ok)
            × ((x : A) × (item ≡ some x) × (contents q ≡ x ∷ contents q'))
            × QueueSane len sem q')
  queue_recv_lem q short v = elim (Bool-cases (ltb 0 (sem.value q.items))) [
    | inl p ↦
        let took = sem.wait-some q.items (ground (arith, p)) in
        let some_left : 0 < q.count = ground (arith, v.used, p) in
        rw (queue_recv-taken q took.0 took.1) (
          inr (
            refl,
            (q.buf q.tail, refl, get-contents took.0 q short v some_left),
            get-QueueSane took.0 q short v took.2,
          ))
    | inr p ↦
        let empty : q.count ≡ 0 = ground (arith, v.used, p) in
        rw (queue_recv-refused q (sem.wait-none q.items (ground (arith, p))))
          (inl (refl, refl, rw empty refl, refl))
  ]
