-- ===== src/Tests/Fifo.antt =====
-- The refinement of the Windows host's queue, on a queue of three slots, and a queue of the ESP build.
use esp32_iot_products.Rtos.Queue.{Semaphore, HostQueue}
use esp32_iot_products.Rtos.Queue.Refine.{
  QueueOp, sends, receives, queue_run, spec_run, queue_run-spec_run,
}
use esp32_iot_products.Rtos.Queue.Fifo.{QueueSane, contents}
use esp32_iot_products.Prelude.{
  some, Option, ℕ, zero, refl, arith, List, none, [], suc, ◌≡◌, ◌∷◌, ◌+◌, ◌<◌, false, Bool, true,
  ◌++◌, if◌then◌else◌, ltb, length,
}
use esp32_iot_products.Rtos.Queue.FreeRtos.{QueueKernel}

pub counter_wait : ℕ → Option ℕ
counter_wait zero = none
counter_wait (suc n) = some n

pub counter_wait-none : (n : ℕ) → n ≡ 0 → counter_wait n ≡ none
unfolding counter_wait
counter_wait-none zero h = refl
counter_wait-none (suc n) h = ground arith

pub counter_wait-some : (n : ℕ) → 0 < n → (m : ℕ) × (counter_wait n ≡ some m) × (suc m ≡ n)
unfolding counter_wait
counter_wait-some zero h = ground arith
counter_wait-some (suc n) h = (n, refl, refl)

abbrev counter : Semaphore ℕ 3
counter = record {
  value = λ n. n;
  wait = counter_wait;
  release = suc;
  wait-none = counter_wait-none;
  wait-some = counter_wait-some;
  value-release = λ n h. refl;
}

-- Two items in the slots 2 and 0.
abbrev wrapped : HostQueue ℕ ℕ
wrapped = record { space = 1; items = 2; buf = λ i. i + 10; head = 1; tail = 2; count = 2 }

wrapped-QueueSane : QueueSane 3 counter wrapped
wrapped-QueueSane = record { tail_in = ground arith; head_at = refl; free = refl; used = refl }

abbrev calls : List (QueueOp ℕ)
calls = sends 7 ∷ sends 8 ∷ receives ∷ receives ∷ receives ∷ receives ∷ []

queue_run-spec_run_example :
    ((queue_run 3 counter calls wrapped).0 ≡ (spec_run 3 calls (contents 3 counter wrapped)).0)
    × (contents 3 counter (queue_run 3 counter calls wrapped).1
        ≡ (spec_run 3 calls (contents 3 counter wrapped)).1)
queue_run-spec_run_example =
    queue_run-spec_run 3 counter calls wrapped (ground arith) wrapped-QueueSane

-- A queue of the ESP build as the list of its items.
pub list_send : {A : Type 0} → ℕ → A → List A → Bool × List A
list_send len x h = if ltb (length h) len then (true, h ++ x ∷ []) else (false, h)

pub list_receive : {A : Type 0} → List A → Option A × List A
list_receive [] = (none, [])
list_receive (x ∷ xs) = (some x, xs)

pub list_send-room :
    {A : Type 0} (len : ℕ) (x : A) (h : List A)
    → length h < len
    → ((list_send len x h).0 ≡ true) × ((list_send len x h).1 ≡ h ++ x ∷ [])
unfolding list_send
list_send-room len x h room = let r : ltb (length h) len ≡ true = ground arith in rw r (refl, refl)

pub list_send-full :
    {A : Type 0} (len : ℕ) (x : A) (h : List A) → length h ≡ len → list_send len x h ≡ (false, h)
unfolding list_send
list_send-full len x h full = let r : ltb (length h) len ≡ false = ground arith in rw r refl

pub list_receive-item :
    {A : Type 0} (h : List A) (x : A) (xs : List A)
    → h ≡ x ∷ xs
    → ((list_receive h).0 ≡ some x) × ((list_receive h).1 ≡ xs)
unfolding list_receive
list_receive-item h x xs e = rw e (refl, refl)

pub list_receive-empty : {A : Type 0} (h : List A) → h ≡ [] → list_receive h ≡ (none, h)
unfolding list_receive
list_receive-empty h e = rw e refl

abbrev pub list_kernel : {A : Type 0} → (len : ℕ) → QueueKernel A (List A) len
list_kernel len = record {
  items = λ h. h;
  x_queue_send = list_send len;
  x_queue_receive = list_receive;
  send-room = list_send-room len;
  send-full = list_send-full len;
  receive-item = list_receive-item;
  receive-empty = list_receive-empty;
}
