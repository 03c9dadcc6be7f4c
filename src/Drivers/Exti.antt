-- ===== src/Drivers/Exti.antt =====
-- components/iot_drivers/src/iot_exti.c: edges on pins, counted by the ISR of the ESP build.
use esp32_iot_products.UseCase.Types.{set_at}
use esp32_iot_products.Core.Err.{Err, ok, invalid_arg, EspCodes, idf_calls, tolerate}
use esp32_iot_products.Prelude.Int.{ℤ, pos, pos_part, ltb_ℤ, leb_ℤ}
use esp32_iot_products.Prelude.Words.{add32}
use esp32_iot_products.Prelude.{
  List, ◌||◌, true, Option, some, [], false, Bool, none, ℕ, if◌then◌else◌, ◌∷◌,
}

-- `s_sem`, `s_count` and `s_isr_svc`. A semaphore is its handle.
pub record Exti : Type 0 where
  pub sems : ℕ → Option ℕ
  pub counts : ℕ → ℕ
  pub isr_svc : Bool

-- `IOT_EXTI_MAX`
abbrev pub exti_max : ℕ
exti_max = 22

abbrev pub pin_exti_pulse : ℤ
pin_exti_pulse = pos 19

-- `(pin < 0) || (pin >= IOT_EXTI_MAX)`
abbrev outside : ℤ → Bool
outside pin = ltb_ℤ pin (pos 0) || leb_ℤ (pos exti_max) pin

-- `gpio_isr`: the new counts, and the semaphore that is given.
pub gpio_isr : ℤ → Exti → Option ℕ × Exti
gpio_isr pin s =
    if outside pin
    then (none, s)
    else let p = pos_part pin in
      (s.sems p, record s { counts = set_at s.counts p (add32 (s.counts p) 1) })

module _ (k : EspCodes) where
  -- Installing the service, which is done once: its code, and the flag.
  install : ℤ → Exti → Err × Bool
  install installed s =
      if s.isr_svc
      then (ok, true)
      else elim (idf_calls k (tolerate k installed ∷ [])) [ ok ↦ (ok, true) | e ↦ (e, false) ]

  -- `installed` and `calls` are what ESP-IDF returns for the service, and for the pin and its
  -- handler: 0 and no calls on the host.
  pub exti_init : ℤ → List ℤ → ℤ → Option ℕ → Exti → Err × Exti
  exti_init installed calls pin none s = (invalid_arg, s)
  exti_init installed calls pin (some sem) s =
      if outside pin
      then (invalid_arg, s)
      else let (e, svc) = install installed s in
        let s' = record s { sems = set_at s.sems (pos_part pin) (some sem); isr_svc = svc } in
        elim e [ ok ↦ (idf_calls k calls, s') | other ↦ (other, s') ]

pub exti_deinit : ℤ → Exti → Err × Exti
exti_deinit pin s =
    (ok, if outside pin then s else record s { sems = set_at s.sems (pos_part pin) none })

pub exti_count : ℤ → Exti → ℕ
exti_count pin s = if outside pin then 0 else s.counts (pos_part pin)
