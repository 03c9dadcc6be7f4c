-- ===== src/Rtos/Objects/Windows/Events.antt =====
-- That the event groups of a Windows host are made or leave nothing behind.
use esp32_iot_products.Core.Err.{Err, ok, no_mem}
use esp32_iot_products.Rtos.Objects.{Kernel, close_if, request}
use esp32_iot_products.Rtos.Objects.Kinds.{freed-Created}
use esp32_iot_products.Rtos.Objects.Port.{
  Sane, is_handle, Apart, Created, turned_down, handed_out, Deletes, Port, request-law, >>=-some,
  close_all, close_all-law,
}
use esp32_iot_products.Rtos.Objects.Windows.{EventParts, event_delete, event_create, finish_event}
use esp32_iot_products.Prelude.{
  refl, ◌∙◌, arith, suc, Option, ◌≡◌, true, false, ℕ, some, ◌∷◌, Bool, ◌||◌, List, none, [],
}

abbrev pub event_parts : EventParts → List (Option ℕ)
event_parts e = e.mtx ∷ some e.self ∷ []

pub event_delete-law :
    (e : EventParts) → Apart (event_parts e) → Deletes (event_parts e) (event_delete (some e))
unfolding event_delete close_all close_if
event_delete-law e apart = close_all-law e.mtx (some e.self ∷ []) apart

module _ (grants : ℕ → Bool) where
  finish_event-law :
      (out : Bool) (o : Option ℕ) (k₀ k : Kernel)
      → Sane k₀
      → k.asked ≡ suc k₀.asked
      → ((h : ℕ) → k.live h ≡ (is_handle o h || k₀.live h))
      → ((h : ℕ) → is_handle o h ≡ true → h ≡ k₀.asked)
      → (r : (Err × Option EventParts) × Kernel) × (finish_event grants out o k ≡ some r)
        × Created event_parts k₀ r
  unfolding finish_event close_if
  finish_event-law out none k₀ k sane at live own = (
    ((no_mem, none), k),
    refl,
    turned_down no_mem k (λ z. ground (arith, z)) (omega (arith, at)) live,
  )
  finish_event-law false (some x) k₀ k sane at live own =
      freed-Created event_parts no_mem (some x) k₀ k (λ z. ground (arith, z)) sane
        (omega (arith, at)) live own
  finish_event-law true (some x) k₀ k sane at live own =
      let (mtx, k', e, a, l, f) = request-law grants k in
      (
        ((ok, some (record { self = x; mtx = mtx })), k'),
        >>=-some (request grants) _ k k' mtx e,
        handed_out (record { self = x; mtx = mtx }) k'
            ((λ h e. ground (arith, e, f h, own h, at)), ((λ h e. refl), tt)) (omega (arith, a, at))
            (λ h. ground (arith, l h, live h)) (λ h e. ground (arith, e, f h, own h, a, at)),
      )

  pub event_create-law :
      (out : Bool) (k : Kernel)
      → Sane k
      → (r : (Err × Option EventParts) × Kernel) × (event_create grants out k ≡ some r)
        × Created event_parts k r
  unfolding event_create
  event_create-law out k sane =
      let (o, k', e, a, l, f) = request-law grants k in
      let (r, e', c) = finish_event-law out o k k' sane a l f in
      (r, >>=-some (request grants) (finish_event grants out) k k' o e ∙ e', c)

  -- Event groups as a kind of objects.
  abbrev pub event_port : Bool → Port EventParts
  event_port out = record {
    create = event_create grants out;
    delete = λ e. event_delete (some e);
    parts = event_parts;
    create-law = event_create-law out;
    delete-law = event_delete-law;
  }
