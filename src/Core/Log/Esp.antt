-- ===== src/Core/Log/Esp.antt =====
-- The levels of components/iot_core/src/iot_log.c, built for the ESP.
use native.Mathlib.Nat.{le_refl}
use esp32_iot_products.Core.Log.{Log, log_set_level, log_prints}
use esp32_iot_products.Core.Err.{switch}
use esp32_iot_products.Prelude.Int.{ℤ, pos}
use esp32_iot_products.Prelude.{
  true, ◌≤◌, ℕ, ◌∷◌, ◌≡◌, [], refl, suc, ◌-◌, arith, zero, ◌<◌, ◌+◌, sym, subst,
}

-- The constants `ESP_LOG_…` of ESP-IDF.
pub record EspLevels : Type 0 where
  pub none : ℕ
  pub error : ℕ
  pub warn : ℕ
  pub info : ℕ
  pub debug : ℕ
  pub verbose : ℕ

-- They rise in this order.
pub record RisingLevels (k : EspLevels) : Type 0 where
  pub silent : k.none ≤ k.error
  pub low : k.error ≤ k.warn
  pub middle : k.warn ≤ k.info
  pub high : k.info ≤ k.debug
  pub top : k.debug ≤ k.verbose

module _ (k : EspLevels) where
  -- `el` of `iot_log_set_level`.
  pub esp_level : ℤ → ℕ
  esp_level level =
      switch level
        ((pos 1, k.error)
          ∷ (pos 2, k.warn)
          ∷ (pos 4, k.debug)
          ∷ (pos 5, k.verbose)
          ∷ (pos 0, k.none)
          ∷ [])
        k.info

  -- `el` of `iot_log_write`.
  pub esp_message_level : ℤ → ℕ
  esp_message_level level =
      switch level ((pos 1, k.error) ∷ (pos 2, k.warn) ∷ (pos 4, k.debug) ∷ (pos 5, k.verbose) ∷ [])
        k.info

  -- The second part is what `esp_log_level_set` is told.
  pub log_set_level_esp : ℤ → Log → Log × ℕ
  log_set_level_esp level l = (log_set_level level l, esp_level level)

  step_up : RisingLevels k → (n : ℕ) → n < 5 → esp_level (pos n) ≤ esp_level (pos (suc n))
  unfolding esp_level
  step_up r zero h = r.silent
  step_up r (suc zero) h = r.low
  step_up r (suc (suc zero)) h = r.middle
  step_up r (suc (suc (suc zero))) h = r.high
  step_up r (suc (suc (suc (suc zero)))) h = r.top
  step_up r (suc (suc (suc (suc (suc n))))) h = absurd (omega arith)

  steps_up : RisingLevels k → (d n : ℕ) → n + d ≤ 5 → esp_level (pos n) ≤ esp_level (pos (n + d))
  steps_up r zero n h = subst (λ (m : ℕ). esp_level (pos n) ≤ esp_level (pos m)) same (le_refl _)
    where
      same : n ≡ n + 0
      same = omega arith
  steps_up r (suc d) n h =
      let far : esp_level (pos n) ≤ esp_level (pos (suc n + d)) =
        omega (arith, step_up r n (omega arith), steps_up r d (suc n) (omega arith)) in
      let here : suc n + d ≡ n + suc d = omega arith in
      subst (λ (m : ℕ). esp_level (pos n) ≤ esp_level (pos m)) here far

  message_lem : (m : ℕ) → 0 < m → m ≤ 5 → esp_message_level (pos m) ≡ esp_level (pos m)
  unfolding esp_level esp_message_level
  message_lem zero h i = absurd (omega arith)
  message_lem (suc zero) h i = refl
  message_lem (suc (suc zero)) h i = refl
  message_lem (suc (suc (suc zero))) h i = refl
  message_lem (suc (suc (suc (suc zero)))) h i = refl
  message_lem (suc (suc (suc (suc (suc zero))))) h i = refl
  message_lem (suc (suc (suc (suc (suc (suc m)))))) h i = absurd (omega arith)

  -- ESP-IDF prints a message that is not above the level it was told. For constants that rise from NONE
  -- to VERBOSE, as those of ESP-IDF do, and for levels of the enumeration, it lets every message through
  -- that `iot_log_write` hands it.
  pub esp_message_level-log_prints :
      RisingLevels k
      → (n m : ℕ) (l : Log) → n ≤ 5
      → log_prints (pos m) (log_set_level_esp (pos n) l).0 ≡ true
      → esp_message_level (pos m) ≤ (log_set_level_esp (pos n) l).1
  unfolding log_set_level_esp log_set_level log_prints
  esp_message_level-log_prints r n m l h p =
      let above : 0 < m = ground (arith, p) in
      let below : m ≤ n = ground (arith, p) in
      let reached : m + (n - m) ≡ n = omega arith in
      subst (λ (t : ℕ). t ≤ esp_level (pos n)) (sym (message_lem m above (omega arith)))
        (subst (λ (t : ℕ). esp_level (pos m) ≤ esp_level (pos t)) reached
          (steps_up r (n - m) m (omega arith)))
