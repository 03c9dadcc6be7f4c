-- ===== src/Rtos/Queue/Window.antt =====
-- Windows of a ring of slots: the arithmetic under the queue of the Windows host.
use native.Mathlib.Nat.{mod-add-mod, mod-eq_of_lt, mod-eq-sub-mod, add-zero, mod-lt}
use native.Mathlib.Decide.{dec_lt}
use mathlib.Core.Path.{ap₂}
use esp32_iot_products.UseCase.Types.{set_at}
use esp32_iot_products.Prelude.Words.{add32}
use esp32_iot_products.Prelude.{
  ◌-◌, ◌++◌, ℕ, ◌∙◌, ◌%◌, [], length, zero, suc, ◌≡◌, ap, ◌<◌, arith, ◌^◌, refl, List, ◌≢◌, ◌+◌,
  ◌∷◌,
}

-- Fewer than `cap` steps round the ring do not come back to the start.
slot-ne : (cap t k : ℕ) → t < cap → suc k < cap → (t + suc k) % cap ≢ t
slot-ne cap t k ht hk = elim (dec_lt (t + suc k) cap) [
  | yes p ↦ omega (arith, mod-eq_of_lt p)
  | no p ↦ omega (
    arith,
    mod-eq-sub-mod {n = t + suc k} {m = cap} (omega arith),
    mod-eq_of_lt {n = t + suc k - cap} {m = cap} (omega arith),
  )
]

set_at-same : {A : Type 0} (a : ℕ → A) (i j : ℕ) (x : A) → i ≡ j → set_at a i x j ≡ x
set_at-same a i j x e = ground (arith, e)

set_at-other : {A : Type 0} (a : ℕ → A) (i j : ℕ) (x : A) → i ≢ j → set_at a i x j ≡ a j
set_at-other a i j x n = ground (arith, n)

module _ {A : Type 0} (cap : ℕ) where
  -- The `n` items from slot `t` on, going round at `cap`.
  abbrev pub window : (ℕ → A) → ℕ → ℕ → List A
  window buf t zero = []
  window buf t (suc n) = buf t ∷ window buf ((t + 1) % cap) n

  pub length-window : (buf : ℕ → A) (t n : ℕ) → length (window buf t n) ≡ n
  length-window buf t zero = refl
  length-window buf t (suc n) = ap suc (length-window buf ((t + 1) % cap) n)

  pub window-step :
      (buf : ℕ → A) (t n : ℕ) → 0 < n → window buf t n ≡ buf t ∷ window buf ((t + 1) % cap) (n - 1)
  window-step buf t zero h = ground arith
  window-step buf t (suc n) h = ap (λ k. window buf t (suc k)) (omega arith)

  pub window-set_at :
      (buf : ℕ → A) (x : A) (n t i : ℕ)
      → t < cap
      → n < cap
      → i ≡ (t + n) % cap
      → window (set_at buf i x) t (suc n) ≡ window buf t n ++ x ∷ []
  window-set_at buf x zero t i ht hn e =
      ap (λ a. a ∷ []) (set_at-same buf i t x (e ∙ rw (add-zero) (mod-eq_of_lt ht)))
  window-set_at buf x (suc n) t i ht hn e =
      let shifted : (t + suc n) % cap ≡ ((t + 1) % cap + n) % cap =
        rw mod-add-mod (ap (λ k. k % cap) (omega arith)) in
      ap₂ ◌∷◌ (set_at-other buf i t x (rw e (slot-ne cap t n ht hn))) (
        window-set_at buf x n ((t + 1) % cap) i (mod-lt (t + 1) (omega arith)) (omega arith)
          (e ∙ shifted))

pub step-mod :
    (len k c : ℕ) → len < 2 ^ 32 → k ≡ c % len → 0 < len → add32 k 1 % len ≡ (c + 1) % len
unfolding add32
step-mod len k c short e positive =
    let below : c % len < len = mod-lt c positive in
    let small : (k + 1) % 2 ^ 32 ≡ k + 1 = mod-eq_of_lt (omega arith) in
    rw (small, e) (mod-add-mod c len 1)

pub suc-one : (k : ℕ) → k + 1 ≡ suc k
suc-one k = omega arith

pub plus_one : (k : ℕ) → suc k < 2 ^ 32 → add32 k 1 ≡ suc k
unfolding add32
plus_one k h = omega arith

pub minus_one : (k : ℕ) → 0 < k → k < 2 ^ 32 → (k + 2 ^ 32 - 1) % 2 ^ 32 ≡ k - 1
minus_one k p h = omega arith
