-- ===== src/Drivers/Gpio/Pins/Calls.antt =====
-- The calls of components/iot_drivers/src/iot_gpio.c, in any order, against a bank of pins.
use esp32_iot_products.Core.Err.{ok, invalid_arg, Err}
use esp32_iot_products.Prelude.Int.{pos, pos_part, ltb_ℤ}
use esp32_iot_products.Drivers.Gpio.{Gpio, gpio_init, gpio_deinit, gpio_config}
use esp32_iot_products.Drivers.Gpio.Pins.{
  bank_of, ShadowFits, PinAct, pin_init, pin_deinit, pin_config, pin_write, pin_read, pin_toggle,
  gpio_act, Bank, bank_act, HasPin, gpio_acts, bank_acts, HavePins, PinAnswer,
}
use esp32_iot_products.Prelude.{
  inl, Bool, false, ◌≡◌, true, inr, ◌||◌, if◌then◌else◌, refl, ◌&&◌, none, not, ap, sym, Bool-cases,
  ◌∷◌, [], List,
}
use esp32_iot_products.Drivers.Gpio.Pins.Single.{
  bank_of-put, write-refused, write-done, read-refused, read-done, accepts, toggle-refused,
  toggle-done, ShadowFits-write,
}

shown : Err × Gpio → PinAnswer × Bank
shown r = ((r.0, none), bank_of r.1)

-- One call: the same answer, and the bank that its state shows.
pub bank_act-gpio_act :
    (a : PinAct) (g : Gpio)
    → HasPin a
    → ShadowFits g
    → bank_act a (bank_of g) ≡ ((gpio_act a g).0, bank_of (gpio_act a g).1)
unfolding bank_act gpio_act HasPin bank_of gpio_init gpio_deinit gpio_config shown
bank_act-gpio_act (pin_init ok) g h fits = elim (Bool-cases g.init) [
  | inl e ↦ rw e refl
  | inr e ↦ rw e refl
]
bank_act-gpio_act (pin_init other) g h fits = elim (Bool-cases g.init) [
  | inl e ↦ rw e refl
  | inr e ↦ rw e refl
]
bank_act-gpio_act pin_deinit g h fits = elim (Bool-cases g.init) [
  | inl e ↦ rw e refl
  | inr e ↦ rw e refl
]
bank_act-gpio_act (pin_config pin) g h fits =
    in_range g.init (ltb_ℤ pin (pos 0)) (ltb_ℤ (pos 21) pin)
  where
    in_range :
        (a b c : Bool)
        → ◌≡◌ {A = PinAnswer × Bank}
            ((if a && not b && not c then ok else invalid_arg, none), bank_of g)
            (shown (if not a || b || c then (invalid_arg, g) else (ok, g)))
    in_range false b c = refl
    in_range true true c = refl
    in_range true false true = refl
    in_range true false false = refl
bank_act-gpio_act (pin_write pin level) g h fits = elim (accepts pin g) [
  | inl (r, e) ↦ rw e (rw (write-refused pin level g r) refl)
  | inr (r, e) ↦ rw e (
      rw (write-done pin level g h r)
        (ap (λ (b : Bank). ((ok, none), b)) (sym (bank_of-put pin level g h fits))))
]
bank_act-gpio_act (pin_read pin) g h fits = elim (accepts pin g) [
  | inl (r, e) ↦ rw e (rw (read-refused pin g r) refl)
  | inr (r, e) ↦ rw e (rw (read-done pin g h r) refl)
]
bank_act-gpio_act (pin_toggle pin) g h fits = elim (accepts pin g) [
  | inl (r, e) ↦ rw e (rw (toggle-refused pin g r) refl)
  | inr (r, e) ↦ rw e (
      rw (toggle-done pin g h r) (
        rw (write-done pin (not ((bank_of g).levels (pos_part pin))) g h r) (
          ap (λ (b : Bank). ((ok, none), b))
            (sym (bank_of-put pin (not ((bank_of g).levels (pos_part pin))) g h fits)))))
]

pub ShadowFits-gpio_act :
    (a : PinAct) (g : Gpio) → HasPin a → ShadowFits g → ShadowFits (gpio_act a g).1
unfolding gpio_act HasPin ShadowFits gpio_init gpio_deinit gpio_config
ShadowFits-gpio_act (pin_init ok) g h fits = elim (Bool-cases g.init) [
  | inl e ↦ rw e fits
  | inr e ↦ rw e fits
]
ShadowFits-gpio_act (pin_init other) g h fits = elim (Bool-cases g.init) [
  | inl e ↦ rw e fits
  | inr e ↦ rw e fits
]
ShadowFits-gpio_act pin_deinit g h fits = elim (Bool-cases g.init) [
  | inl e ↦ rw e fits
  | inr e ↦ rw e fits
]
ShadowFits-gpio_act (pin_config pin) g h fits =
    elim (Bool-cases (not g.init || ltb_ℤ pin (pos 0) || ltb_ℤ (pos 21) pin)) [
      | inl e ↦ rw e fits
      | inr e ↦ rw e fits
    ]
ShadowFits-gpio_act (pin_write pin level) g h fits = ShadowFits-write pin level g h fits
ShadowFits-gpio_act (pin_read pin) g h fits = fits
ShadowFits-gpio_act (pin_toggle pin) g h fits = elim (accepts pin g) [
  | inl (r, e) ↦ rw (toggle-refused pin g r) fits
  | inr (r, e) ↦
      rw (toggle-done pin g h r)
        (ShadowFits-write pin (not ((bank_of g).levels (pos_part pin))) g h fits)
]

-- Any sequence of calls on pins below 32, from a word of 32 bits on, gives the codes and the levels of
-- a bank of pins that share nothing, and ends in the state that the bank ends in.
pub gpio_acts-bank_acts :
    (acts : List PinAct) (g : Gpio)
    → HavePins acts
    → ShadowFits g
    → bank_acts acts (bank_of g) ≡ ((gpio_acts acts g).0, bank_of (gpio_acts acts g).1)
unfolding bank_acts gpio_acts HavePins
gpio_acts-bank_acts [] g h fits = refl
gpio_acts-bank_acts (a ∷ acts) g (h, hs) fits =
    rw (bank_act-gpio_act a g h fits)
      (rw (gpio_acts-bank_acts acts (gpio_act a g).1 hs (ShadowFits-gpio_act a g h fits)) refl)
