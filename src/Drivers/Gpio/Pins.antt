-- ===== src/Drivers/Gpio/Pins.antt =====
-- The word of output levels in components/iot_drivers/src/iot_gpio.c, as a bank of pins.
pub mod Refine
pub mod Single
pub mod Calls
use esp32_iot_products.Prelude.{
  ℕ, not, ◌<◌, ◌==◌, ◌≤◌, true, List, false, ◌∷◌, Bool, some, [], ◌&&◌, Option, none, if◌then◌else◌,
}
use esp32_iot_products.Core.Err.{Err, ok, invalid_arg, not_init, already_init}
use esp32_iot_products.Prelude.Bits.{digit}
use esp32_iot_products.Prelude.Int.{ℤ, pos, pos_part, ltb_ℤ}
use esp32_iot_products.Prelude.Words.{u32_mod}
use esp32_iot_products.Drivers.Gpio.{
  Gpio, gpio_init, gpio_deinit, gpio_config, gpio_write, gpio_read, gpio_toggle,
}

-- A call of the driver; making the mutex returns the argument of `pin_init`.
pub data PinAct : Type 0 where
  pin_init : Err → PinAct
  pin_deinit : PinAct
  pin_config : ℤ → PinAct
  pin_write : ℤ → Bool → PinAct
  pin_read : ℤ → PinAct
  pin_toggle : ℤ → PinAct

-- What a call returns, with the level read.
abbrev pub PinAnswer : Type 0
PinAnswer = Err × Option Bool

unfoldable pub gpio_act : PinAct → Gpio → PinAnswer × Gpio
gpio_act (pin_init created) g = let (e, h) = gpio_init created g in ((e, none), h)
gpio_act pin_deinit g = let (e, h) = gpio_deinit g in ((e, none), h)
gpio_act (pin_config pin) g = let (e, h) = gpio_config pin g in ((e, none), h)
gpio_act (pin_write pin level) g = let (e, h) = gpio_write pin level g in ((e, none), h)
gpio_act (pin_read pin) g = (gpio_read pin g, g)
gpio_act (pin_toggle pin) g = let (e, h) = gpio_toggle pin g in ((e, none), h)

unfoldable pub gpio_acts : List PinAct → Gpio → List PinAnswer × Gpio
gpio_acts [] g = ([], g)
gpio_acts (a ∷ acts) g =
    let (answer, h) = gpio_act a g in
    let (answers, end) = gpio_acts acts h in (answer ∷ answers, end)

-- Pins that do not share anything, and whether the driver is up.
pub record Bank : Type 0 where
  pub up : Bool
  pub levels : ℕ → Bool

unfoldable pub put_level : ℤ → Bool → Bank → Bank
put_level pin level b = record b { levels = λ q. if q == pos_part pin then level else b.levels q }

unfoldable pub bank_act : PinAct → Bank → PinAnswer × Bank
bank_act (pin_init created) b =
    if b.up
    then ((already_init, none), b)
    else ((created, none), record b { up = elim created [ ok ↦ true | e ↦ false ] })
bank_act pin_deinit b =
    if b.up then ((ok, none), record b { up = false }) else ((not_init, none), b)
bank_act (pin_config pin) b = (
  (if b.up && not (ltb_ℤ pin (pos 0)) && not (ltb_ℤ (pos 21) pin) then ok else invalid_arg, none),
  b,
)
bank_act (pin_write pin level) b =
    if b.up && not (ltb_ℤ pin (pos 0))
    then ((ok, none), put_level pin level b)
    else ((invalid_arg, none), b)
bank_act (pin_read pin) b =
    if b.up && not (ltb_ℤ pin (pos 0))
    then ((ok, some (b.levels (pos_part pin))), b)
    else ((invalid_arg, none), b)
bank_act (pin_toggle pin) b =
    if b.up && not (ltb_ℤ pin (pos 0))
    then ((ok, none), put_level pin (not (b.levels (pos_part pin))) b)
    else ((invalid_arg, none), b)

unfoldable pub bank_acts : List PinAct → Bank → List PinAnswer × Bank
bank_acts [] b = ([], b)
bank_acts (a ∷ acts) b =
    let (answer, c) = bank_act a b in
    let (answers, end) = bank_acts acts c in (answer ∷ answers, end)

-- The abstract view of the driver.
unfoldable pub bank_of : Gpio → Bank
bank_of g = record { up = g.init; levels = λ q. not (digit q g.out_shadow == 0) }

unfoldable pub ShadowFits : Gpio → Type 0
ShadowFits g = g.out_shadow < u32_mod

-- Pins that the word has: the shift of C is undefined beyond.
unfoldable pub HasPin : PinAct → Type 0
HasPin (pin_write pin level) = pos_part pin < 32
HasPin (pin_read pin) = pos_part pin < 32
HasPin (pin_toggle pin) = pos_part pin < 32
HasPin other = 0 ≤ 0

unfoldable pub HavePins : List PinAct → Type 0
HavePins [] = 0 ≤ 0
HavePins (a ∷ acts) = HasPin a × HavePins acts
