-- ===== src/Rtos/Queue/Refine.antt =====
-- The queue of the Windows host against a bounded list of items.
use mathlib.Core.Path.{ap₂}
use esp32_iot_products.Core.Err.{Err, ok, timeout, queue_full}
use esp32_iot_products.Rtos.Queue.{Semaphore, HostQueue, queue_send, queue_recv}
use esp32_iot_products.Rtos.Queue.Fifo.{QueueSane, contents, queue_send_lem, queue_recv_lem}
use esp32_iot_products.Prelude.{
  inr, ◌<◌, Option, inl, length, ◌++◌, ◌≡◌, some, refl, List, ℕ, [], ◌∷◌, if◌then◌else◌, none, ◌==◌,
  ◌^◌, false, subst, true, sym, arith, ◌∙◌, ap,
}
use esp32_iot_products.Rtos.Queue.Window.{length-window}

-- A call of a client that does not wait.

pub data QueueOp (A : Type 0) : Type 0 where
  sends : A → QueueOp A
  receives : QueueOp A

module _ {A S : Type 0} (len : ℕ) (sem : Semaphore S len) where
  pub queue_step : QueueOp A → HostQueue A S → (Err × Option A) × HostQueue A S
  queue_step (sends x) q = let (e, q') = queue_send len sem x q in ((e, none), q')
  queue_step receives q = let (e, item, q') = queue_recv len sem q in ((e, item), q')

  -- The outcomes of a list of calls, and the queue that they leave.
  pub queue_run : List (QueueOp A) → HostQueue A S → List (Err × Option A) × HostQueue A S
  queue_run [] q = ([], q)
  queue_run (op ∷ ops) q =
      let (r, q') = queue_step op q in let (rs, q'') = queue_run ops q' in (r ∷ rs, q'')

module _ {A : Type 0} (len : ℕ) where
  -- The specification: a list of at most `len` items, the oldest first.
  unfoldable pub spec_step : QueueOp A → List A → (Err × Option A) × List A
  spec_step (sends x) xs =
      if length xs == len then ((queue_full, none), xs) else ((ok, none), xs ++ x ∷ [])
  spec_step receives [] = ((timeout, none), [])
  spec_step receives (x ∷ xs) = ((ok, some x), xs)

  unfoldable pub spec_run : List (QueueOp A) → List A → List (Err × Option A) × List A
  spec_run [] xs = ([], xs)
  spec_run (op ∷ ops) xs =
      let (r, ys) = spec_step op xs in let (rs, zs) = spec_run ops ys in (r ∷ rs, zs)

module _ {A S : Type 0} (len : ℕ) (sem : Semaphore S len) where
  pub length-contents : (q : HostQueue A S) → length (contents len sem q) ≡ q.count
  length-contents q = length-window len q.buf q.tail q.count

  queue_step_lem :
      (op : QueueOp A) (q : HostQueue A S)
      → len < 2 ^ 32
      → QueueSane len sem q
      → ((queue_step len sem op q).0 ≡ (spec_step len op (contents len sem q)).0)
        × (contents len sem (queue_step len sem op q).1 ≡ (spec_step len op (contents len sem q)).1)
        × QueueSane len sem (queue_step len sem op q).1
  unfolding queue_step spec_step
  queue_step_lem (sends x) q short v = elim (queue_send_lem len sem x q short v) [
    | inl (e, full, same) ↦
        let all_used : (length (contents len sem q) == len) ≡ true =
          ground (arith, length-contents q, full) in
        rw all_used (rw e refl, ap (contents len sem) same, subst (QueueSane len sem) (sym same) v)
    | inr (e, room, cs, v') ↦
        let one_free : (length (contents len sem q) == len) ≡ false =
          ground (arith, length-contents q, room) in
        rw one_free (rw e refl, cs, v')
  ]
  queue_step_lem receives q short v = elim (queue_recv_lem len sem q short v) [
    | inl (e, i, empty, same) ↦
        rw empty (
          rw (e, i) refl,
          ap (contents len sem) same ∙ empty,
          subst (QueueSane len sem) (sym same) v,
        )
    | inr (e, i, v') ↦ rw (i.2) (rw (e, i.1) refl, refl, v')
  ]

  -- A queue whose fields agree answers every sequence of calls like the bounded list of its items,
  -- and is left with the items that this list is left with.
  pub queue_run-spec_run :
      (ops : List (QueueOp A)) (q : HostQueue A S)
      → len < 2 ^ 32
      → QueueSane len sem q
      → ((queue_run len sem ops q).0 ≡ (spec_run len ops (contents len sem q)).0)
        × (contents len sem (queue_run len sem ops q).1 ≡ (spec_run len ops (contents len sem q)).1)
  unfolding queue_run spec_run
  queue_run-spec_run [] q short v = (refl, refl)
  queue_run-spec_run (op ∷ ops) q short v =
      let now = queue_step_lem op q short v in
      let later = queue_run-spec_run ops (queue_step len sem op q).1 short now.2 in
      (
        ap₂ ◌∷◌ now.0 (later.0 ∙ ap (λ ys. (spec_run len ops ys).0) now.1),
        later.1 ∙ ap (λ ys. (spec_run len ops ys).1) now.1,
      )
