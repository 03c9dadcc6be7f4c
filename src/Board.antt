-- ===== src/Board.antt =====
-- components/iot_hal/src/iot_board.c: what the board says of itself.
use mathlib.Core.Option.{none-ne-some, some-injective}
use esp32_iot_products.CText.{Text, codes}
use esp32_iot_products.Core.Err.{switch}
use esp32_iot_products.Prelude.Int.{ℤ, eqb_ℤ}
use esp32_iot_products.Prelude.{
  none, ◌≤◌, suc, List, [], zero, ℕ, ◌≡◌, some, ◌∷◌, Bool, Option, false, ◌||◌, arith, subst, ap,
  ◌∙◌, true,
}

-- `iot_board_info_t`
pub record BoardInfo : Type 0 where
  pub name : Text
  pub mcu : Text
  pub notes : Text
  pub native_can : Bool
  pub native_ethernet : Bool

-- `s_info`
unfoldable pub board_info : BoardInfo
board_info = record {
  name = codes "ESP32-C3-DevKitM-1 compatible";
  mcu = codes "ESP32-C3 (RISC-V, 160 MHz, Wi-Fi + BLE 5)";
  notes = codes "CAN=MCP2515+transceiver; RS485=UART1+MAX3485; analog via ADC1.";
  native_can = false;
  native_ethernet = false;
}

-- The constants `ESP_RST_…` of ESP-IDF that the switch names.
pub record ResetCodes : Type 0 where
  pub poweron : ℤ
  pub sw : ℤ
  pub panic : ℤ
  pub int_wdt : ℤ
  pub task_wdt : ℤ
  pub wdt : ℤ
  pub deepsleep : ℤ
  pub brownout : ℤ
  pub sdio : ℤ

-- The cases of the ESP build.
unfoldable pub reset_table : ResetCodes → List (ℤ × Text)
reset_table k =
    (k.poweron, codes "POWERON")
    ∷ (k.sw, codes "SW")
    ∷ (k.panic, codes "PANIC")
    ∷ (k.int_wdt, codes "INT_WDT")
    ∷ (k.task_wdt, codes "TASK_WDT")
    ∷ (k.wdt, codes "WDT")
    ∷ (k.deepsleep, codes "DEEPSLEEP")
    ∷ (k.brownout, codes "BROWNOUT")
    ∷ (k.sdio, codes "SDIO")
    ∷ []

pub board_reset_reason : ResetCodes → ℤ → Text
board_reset_reason k reason = switch reason (reset_table k) (codes "UNKNOWN")

-- Whether a key stands in the list.
unfoldable pub has_case : ℤ → List (ℤ × Text) → Bool
has_case z [] = false
has_case z ((c, a) ∷ cases) = eqb_ℤ z c || has_case z cases

-- No key stands twice.
unfoldable pub OneCaseEach : List (ℤ × Text) → Type 0
OneCaseEach [] = 0 ≤ 0
OneCaseEach ((c, a) ∷ cases) = (has_case c cases ≡ false) × OneCaseEach cases

-- The name that stands at a place.
unfoldable pub case_at : ℕ → List (ℤ × Text) → Option (ℤ × Text)
case_at i [] = none
case_at zero (c ∷ cases) = some c
case_at (suc i) (c ∷ cases) = case_at i cases

-- Whether an entry, if there is one, has another key.
abbrev OtherKey : ℤ → Option (ℤ × Text) → Type 0
OtherKey z none = 0 ≤ 0
OtherKey z (some (c, a)) = eqb_ℤ c z ≡ false

no_case-OtherKey :
    (z : ℤ) (i : ℕ) (cases : List (ℤ × Text))
    → has_case z cases ≡ false
    → OtherKey z (case_at i cases)
unfolding has_case case_at
no_case-OtherKey z i [] h = omega arith
no_case-OtherKey z zero ((c, a) ∷ cases) h = ground (arith, h)
no_case-OtherKey z (suc i) ((c, a) ∷ cases) h = no_case-OtherKey z i cases (ground (arith, h))

eqb_self : (z : ℤ) → eqb_ℤ z z ≡ true
eqb_self z = ground arith

switch-case_at :
    (c : ℤ) (a d : Text) (i : ℕ) (cases : List (ℤ × Text))
    → OneCaseEach cases
    → case_at i cases ≡ some (c, a)
    → switch c cases d ≡ a
unfolding OneCaseEach case_at
switch-case_at c a d i [] one e = absurd (none-ne-some (c, a) e)
switch-case_at c a d zero ((z, b) ∷ cases) (new, one) e =
    let same : (z, b) ≡ (c, a) = some-injective (z, b) (c, a) e in
    let key : eqb_ℤ c z ≡ true = ap (eqb_ℤ c) (ap (λ (p : ℤ × Text). p.0) same) ∙ eqb_self c in
    rw key (ap (λ (p : ℤ × Text). p.1) same)
switch-case_at c a d (suc i) ((z, b) ∷ cases) (new, one) e =
    let other : eqb_ℤ c z ≡ false = subst (OtherKey z) e (no_case-OtherKey z i cases new) in
    rw other (switch-case_at c a d i cases one e)

-- When the constants differ from each other, each of the nine reasons has its name.
pub board_reset_reason-case_at :
    (k : ResetCodes) (reason : ℤ) (name : Text) (i : ℕ)
    → OneCaseEach (reset_table k)
    → case_at i (reset_table k) ≡ some (reason, name)
    → board_reset_reason k reason ≡ name
unfolding board_reset_reason
board_reset_reason-case_at k reason name i one e =
    switch-case_at reason name (codes "UNKNOWN") i (reset_table k) one e
