-- ===== src/Rtos/Objects/Windows/Whole.antt =====
-- That the queues of a Windows host are made whole or not at all.
use esp32_iot_products.Core.Err.{Err, ok, no_mem, invalid_arg}
use esp32_iot_products.Rtos.Objects.{Kernel, close_if, pure, missing, request}
use esp32_iot_products.Rtos.Objects.Port.{
  Sane, any_handle, Apart, Created, Deletes, request-law, close_all, close_all-law, is_handle,
  turned_down, handed_out, >>=-some, Port, rejected-Created,
}
use esp32_iot_products.Rtos.Objects.Windows.{
  QueueParts, queue_delete, finish_queue, settle_queue, queue_create, queue_block,
}
use esp32_iot_products.Prelude.{
  some, arith, suc, ◌≤◌, Option, ◌||◌, [], ◌<◌, List, ◌≡◌, ◌∷◌, Bool, true, ℕ, none, Bool-cases,
  refl, inl, inr, ◌∙◌, ◌==◌, not,
}

-- The handles in the order in which they are closed.
abbrev pub queue_parts : QueueParts → List (Option ℕ)
queue_parts q = q.mtx ∷ q.space ∷ q.items ∷ q.buf ∷ some q.self ∷ []

pub queue_delete-law :
    (q : QueueParts) → Apart (queue_parts q) → Deletes (queue_parts q) (queue_delete (some q))
unfolding queue_delete close_all close_if
queue_delete-law q apart = close_all-law q.mtx (q.space ∷ q.items ∷ q.buf ∷ some q.self ∷ []) apart

module _ (grants : ℕ → Bool) where
  -- What is decided once the four requests are made: the queue is complete, or taken apart again.
  settle :
      (q : QueueParts) (k₀ k : Kernel)
      → Sane k₀
      → Apart (queue_parts q)
      → k₀.asked ≤ k.asked
      → ((h : ℕ) → k.live h ≡ (any_handle (queue_parts q) h || k₀.live h))
      → ((h : ℕ) → any_handle (queue_parts q) h ≡ true → (k₀.asked ≤ h) × (h < k.asked))
      → (r : (Err × Option QueueParts) × Kernel) × (settle_queue q k ≡ some r)
        × Created queue_parts k₀ r
  unfolding settle_queue
  settle q k₀ k sane apart more grown fresh =
      elim (Bool-cases (missing q.buf || missing q.mtx || missing q.space || missing q.items)) [
        | inr all ↦ (((ok, some q), k), rw all refl, handed_out q k apart more grown fresh)
        | inl some_missing ↦
            let (k', e, a, l) =
              queue_delete-law q apart k (λ h own. ground (arith, own, grown h)) in
            (
              ((no_mem, none), k'),
              rw some_missing
                  (>>=-some (queue_delete (some q)) (λ u. pure (no_mem, none)) k k' tt e),
              turned_down no_mem k' (λ z. ground (arith, z)) (ground (arith, a))
                  (λ h. ground (arith, l h, grown h, fresh h, sane h)),
            )
      ]

  finish_queue-settle_queue :
      (self : ℕ) (buf mtx space items : Option ℕ) (k k₁ k₂ k₃ k₄ : Kernel)
      → request grants k ≡ some (buf, k₁)
      → request grants k₁ ≡ some (mtx, k₂)
      → request grants k₂ ≡ some (space, k₃)
      → request grants k₃ ≡ some (items, k₄)
      → finish_queue grants self k
        ≡ settle_queue
            (record { self = self; buf = buf; mtx = mtx; space = space; items = items })
            k₄
  unfolding finish_queue
  finish_queue-settle_queue self buf mtx space items k k₁ k₂ k₃ k₄ e₁ e₂ e₃ e₄ =
      >>=-some (request grants) _ k k₁ buf e₁
      ∙ >>=-some (request grants) _ k₁ k₂ mtx e₂
      ∙ >>=-some (request grants) _ k₂ k₃ space e₃
      ∙ >>=-some (request grants) _ k₃ k₄ items e₄

  -- The four requests, from a state in which a block has been handed out.
  finish_queue-law :
      (self : ℕ) (k₀ k : Kernel)
      → Sane k₀
      → k.asked ≡ suc k₀.asked
      → ((h : ℕ) → k.live h ≡ (is_handle (some self) h || k₀.live h))
      → self ≡ k₀.asked
      → (r : (Err × Option QueueParts) × Kernel) × (finish_queue grants self k ≡ some r)
        × Created queue_parts k₀ r
  finish_queue-law self k₀ k sane at live own =
      let (buf, k₁, e₁, a₁, l₁, f₁) = request-law grants k in
      let (mtx, k₂, e₂, a₂, l₂, f₂) = request-law grants k₁ in
      let (space, k₃, e₃, a₃, l₃, f₃) = request-law grants k₂ in
      let (items, k₄, e₄, a₄, l₄, f₄) = request-law grants k₃ in
      let q : QueueParts = record {
        self = self;
        buf = buf;
        mtx = mtx;
        space = space;
        items = items;
      } in
      let apart : Apart (queue_parts q) = (
        λ h e. ground (arith, e, f₁ h, f₂ h, f₃ h, f₄ h),
        (
          λ h e. ground (arith, e, f₁ h, f₃ h, f₄ h),
          (
            λ h e. ground (arith, e, f₁ h, f₄ h),
            (λ h e. ground (arith, e, f₁ h), (λ h e. refl, tt)),
          ),
        ),
      ) in
      let grown : (h : ℕ) → k₄.live h ≡ (any_handle (queue_parts q) h || k₀.live h) =
        λ h. ground (arith, l₁ h, l₂ h, l₃ h, l₄ h, live h) in
      let fresh : (h : ℕ) → any_handle (queue_parts q) h ≡ true → (k₀.asked ≤ h) × (h < k₄.asked) =
        λ h e. ground (arith, e, f₁ h, f₂ h, f₃ h, f₄ h) in
      let (r, e, c) = settle q k₀ k₄ sane apart (ground (arith, a₁, a₂, a₃, a₄)) grown fresh in
      (r, finish_queue-settle_queue self buf mtx space items k k₁ k₂ k₃ k₄ e₁ e₂ e₃ e₄ ∙ e, c)

  queue_block-law :
      (o : Option ℕ) (k₀ k : Kernel)
      → Sane k₀
      → k.asked ≡ suc k₀.asked
      → ((h : ℕ) → k.live h ≡ (is_handle o h || k₀.live h))
      → ((h : ℕ) → is_handle o h ≡ true → h ≡ k₀.asked)
      → (r : (Err × Option QueueParts) × Kernel) × (queue_block grants o k ≡ some r)
        × Created queue_parts k₀ r
  unfolding queue_block
  queue_block-law none k₀ k sane at live own = (
    ((no_mem, none), k),
    refl,
    turned_down no_mem k (λ z. ground (arith, z)) (omega (arith, at)) live,
  )
  queue_block-law (some self) k₀ k sane at live own =
      finish_queue-law self k₀ k sane at live (own self (ground arith))

  -- Whatever the system grants, `iot_queue_create` hands out a queue with all its parts, all new, or
  -- it returns an error and leaves the system with what it held before.
  pub queue_create-law :
      (len item_size : ℕ) (out : Bool) (k : Kernel)
      → Sane k
      → (r : (Err × Option QueueParts) × Kernel) × (queue_create grants len item_size out k
          ≡ some r)
        × Created queue_parts k r
  unfolding queue_create
  queue_create-law len item_size out k sane =
      elim (Bool-cases (not out || len == 0 || item_size == 0)) [
        | inl bad ↦ (
          ((invalid_arg, none), k),
          rw bad refl,
          rejected-Created queue_parts invalid_arg k (λ z. ground (arith, z)),
        )
        | inr good ↦
            let (self, k₁, e, a, l, f) = request-law grants k in
            let (r, e', c) = queue_block-law self k k₁ sane a l f in
            (r, rw good (>>=-some (request grants) (queue_block grants) k k₁ self e ∙ e'), c)
      ]

  -- Queues as a kind of objects.
  abbrev pub queue_port : ℕ → ℕ → Bool → Port QueueParts
  queue_port len item_size out = record {
    create = queue_create grants len item_size out;
    delete = λ q. queue_delete (some q);
    parts = queue_parts;
    create-law = queue_create-law len item_size out;
    delete-law = queue_delete-law;
  }
