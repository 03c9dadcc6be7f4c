-- ===== src/Rtos/Objects/Timer/Whole.antt =====
-- That a timer of components/iot_rtos/src/iot_rtos.c is made with its block or not at all.
use esp32_iot_products.Core.Err.{Err, ok, invalid_arg, no_mem}
use esp32_iot_products.Rtos.Objects.{Kernel, close_if, request}
use esp32_iot_products.Rtos.Objects.Kinds.{freed-Created}
use esp32_iot_products.Rtos.Objects.Port.{
  Sane, is_handle, Apart, Created, turned_down, handed_out, Deletes, Port, request-law, >>=-some,
  close_all, close_all-law, rejected-Created,
}
use esp32_iot_products.Rtos.Objects.Timer.{
  TimerWrap, keep_timer, timer_block, timer_create, timer_delete,
}
use esp32_iot_products.Prelude.{
  [], ◌≡◌, inl, arith, refl, not, ◌||◌, suc, List, true, ◌∙◌, ℕ, Bool, Bool-cases, ◌∷◌, Option,
  none, inr, some, ◌==◌,
}

abbrev pub timer_parts : TimerWrap → List (Option ℕ)
timer_parts w = some w.h ∷ some w.self ∷ []

pub timer_delete-law :
    (w : TimerWrap) → Apart (timer_parts w) → Deletes (timer_parts w) (timer_delete (some w))
unfolding timer_delete close_all close_if
timer_delete-law w apart = close_all-law (some w.h) (some w.self ∷ []) apart

module _ (grants : ℕ → Bool) where
  -- The second request, in a state in which the block has been handed out.
  keep_timer-law :
      (cb w : ℕ) (o : Option ℕ) (k₀ k k' : Kernel)
      → Sane k₀
      → k.asked ≡ suc k₀.asked
      → ((h : ℕ) → k.live h ≡ (is_handle (some w) h || k₀.live h))
      → w ≡ k₀.asked
      → k'.asked ≡ suc k.asked
      → ((h : ℕ) → k'.live h ≡ (is_handle o h || k.live h))
      → ((h : ℕ) → is_handle o h ≡ true → h ≡ k.asked)
      → (r : (Err × Option TimerWrap) × Kernel) × (keep_timer cb w o k' ≡ some r)
        × Created timer_parts k₀ r
  unfolding keep_timer close_if
  keep_timer-law cb w none k₀ k k' sane at live own a l f =
      freed-Created timer_parts no_mem (some w) k₀ k' (λ z. ground (arith, z)) sane
        (omega (arith, a, at)) (λ h. ground (arith, l h, live h)) (λ h e. ground (arith, e, own))
  keep_timer-law cb w (some t) k₀ k k' sane at live own a l f = (
    ((ok, some (record { self = w; h = t; cb = cb })), k'),
    refl,
    handed_out (record { self = w; h = t; cb = cb }) k'
        ((λ h e. ground (arith, e, f h)), ((λ h e. refl), tt)) (omega (arith, a, at))
        (λ h. ground (arith, l h, live h)) (λ h e. ground (arith, e, f h)),
  )

  timer_block-law :
      (cb : ℕ) (o : Option ℕ) (k₀ k : Kernel)
      → Sane k₀
      → k.asked ≡ suc k₀.asked
      → ((h : ℕ) → k.live h ≡ (is_handle o h || k₀.live h))
      → ((h : ℕ) → is_handle o h ≡ true → h ≡ k₀.asked)
      → (r : (Err × Option TimerWrap) × Kernel) × (timer_block grants cb o k ≡ some r)
        × Created timer_parts k₀ r
  unfolding timer_block
  timer_block-law cb none k₀ k sane at live own = (
    ((no_mem, none), k),
    refl,
    turned_down no_mem k (λ z. ground (arith, z)) (omega (arith, at)) live,
  )
  timer_block-law cb (some w) k₀ k sane at live own =
      let (o, k', e, a, l, f) = request-law grants k in
      let (r, e', c) = keep_timer-law cb w o k₀ k k' sane at live (own w (ground arith)) a l f in
      (r, >>=-some (request grants) (keep_timer cb w) k k' o e ∙ e', c)

  pub timer_create-law :
      (period_ms : ℕ) (cb : Option ℕ) (out : Bool) (k : Kernel)
      → Sane k
      → (r : (Err × Option TimerWrap) × Kernel) × (timer_create grants period_ms cb out k ≡ some r)
        × Created timer_parts k r
  unfolding timer_create
  timer_create-law period_ms none out k sane = (
    ((invalid_arg, none), k),
    refl,
    rejected-Created timer_parts invalid_arg k (λ z. ground (arith, z)),
  )
  timer_create-law period_ms (some cb) out k sane = elim (Bool-cases (not out || period_ms == 0)) [
    | inl bad ↦ (
      ((invalid_arg, none), k),
      rw bad refl,
      rejected-Created timer_parts invalid_arg k (λ z. ground (arith, z)),
    )
    | inr good ↦
        let (o, k', e, a, l, f) = request-law grants k in
        let (r, e', c) = timer_block-law cb o k k' sane a l f in
        (r, rw good (>>=-some (request grants) (timer_block grants cb) k k' o e ∙ e'), c)
  ]

  -- Timers as a kind of objects.
  abbrev pub timer_port : ℕ → Option ℕ → Bool → Port TimerWrap
  timer_port period_ms cb out = record {
    create = timer_create grants period_ms cb out;
    delete = λ w. timer_delete (some w);
    parts = timer_parts;
    create-law = timer_create-law period_ms cb out;
    delete-law = timer_delete-law;
  }
