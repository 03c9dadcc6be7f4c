-- ===== src/Drivers/Gpio/Pins/Single.antt =====
-- One call of components/iot_drivers/src/iot_gpio.c on one pin, seen on the bank.
use Prim.Native.Nat.{bit_and, bit_or}
use mathlib.Core.Path.{fun_ext}
use esp32_iot_products.Core.Err.{Err, ok, invalid_arg}
use esp32_iot_products.Prelude.Int.{ℤ, pos, pos_part, ltb_ℤ}
use esp32_iot_products.Prelude.Words.{u32_mod}
use esp32_iot_products.Drivers.Gpio.{Gpio, gpio_write, gpio_read, gpio_toggle}
use esp32_iot_products.Drivers.Gpio.Pins.{put_level, bank_of, ShadowFits}
use esp32_iot_products.Drivers.Gpio.Pins.Refine.{bit_of_lem, put, put-lt, level-put, level-bit_and}
use esp32_iot_products.Prelude.{
  ◌&&◌, ◌==◌, Option, if◌then◌else◌, not, ◌||◌, ◌<◌, true, none, ◌%◌, ◌≡◌, some, ℕ, false, refl,
  ◌-◌, ◌^◌, inl, inr, Bool, ◌∙◌, ap, ◌⊎◌,
}

-- What a write leaves, pin by pin.
pub bank_of-put :
    (pin : ℤ) (level : Bool) (g : Gpio)
    → pos_part pin < 32
    → ShadowFits g
    → bank_of (record g { out_shadow = put level (pos_part pin) g.out_shadow })
      ≡ put_level pin level (bank_of g)
unfolding bank_of put_level ShadowFits
bank_of-put pin level g h fits =
    ap (λ (f : ℕ → Bool). record { up = g.init; levels = f })
      (fun_ext (level-put level (pos_part pin) g.out_shadow h fits))

pub refused : ℤ → Gpio → Bool
refused pin g = not g.init || ltb_ℤ pin (pos 0)

pub write-refused :
    (pin : ℤ) (level : Bool) (g : Gpio)
    → refused pin g ≡ true
    → gpio_write pin level g ≡ (invalid_arg, g)
unfolding gpio_write refused
write-refused pin level g r = rw r refl

pub write-done :
    (pin : ℤ) (level : Bool) (g : Gpio)
    → pos_part pin < 32
    → refused pin g ≡ false
    → gpio_write pin level g ≡ (ok, record g { out_shadow = put level (pos_part pin) g.out_shadow })
unfolding gpio_write refused
write-done pin level g h r = rw r (
    ap
      (λ (bit : ℕ). (
        ok,
        record g {
          out_shadow =
              if level
              then bit_or g.out_shadow bit % u32_mod
              else bit_and g.out_shadow (2 ^ 64 - 1 - bit) % u32_mod;
        },
      ))
      (bit_of_lem pin h))

pub read-refused :
    (pin : ℤ) (g : Gpio) → refused pin g ≡ true → gpio_read pin g ≡ (invalid_arg, none)
unfolding gpio_read refused
read-refused pin g r = rw r refl

pub read-done :
    (pin : ℤ) (g : Gpio)
    → pos_part pin < 32
    → refused pin g ≡ false
    → gpio_read pin g ≡ (ok, some ((bank_of g).levels (pos_part pin)))
unfolding gpio_read refused bank_of
read-done pin g h r = rw r (
    ap (λ (b : Bool). (ok, some b))
      (ap (λ (bit : ℕ). not (bit_and g.out_shadow bit == 0)) (bit_of_lem pin h)
        ∙ level-bit_and (pos_part pin) g.out_shadow))

pub accepts :
    (pin : ℤ) (g : Gpio)
    → (refused pin g ≡ true × (g.init && not (ltb_ℤ pin (pos 0))) ≡ false)
      ⊎ (refused pin g ≡ false × (g.init && not (ltb_ℤ pin (pos 0))) ≡ true)
unfolding refused
accepts pin g = split g.init (ltb_ℤ pin (pos 0))
  where
    split :
        (a b : Bool)
        → ((not a || b) ≡ true × (a && not b) ≡ false)
          ⊎ ((not a || b) ≡ false × (a && not b) ≡ true)
    split true true = inl (refl, refl)
    split true false = inr (refl, refl)
    split false b = inl (refl, refl)

toggle_of : ℤ → Gpio → Err × Option Bool → Err × Gpio
toggle_of pin g r = elim r.0 [
  | ok ↦ gpio_write pin (not (elim r.1 [ none ↦ false | some b ↦ b ])) g
  | other ↦ (other, g)
]

pub toggle-refused :
    (pin : ℤ) (g : Gpio) → refused pin g ≡ true → gpio_toggle pin g ≡ (invalid_arg, g)
unfolding gpio_toggle toggle_of
toggle-refused pin g r = ap (toggle_of pin g) (read-refused pin g r)

pub toggle-done :
    (pin : ℤ) (g : Gpio)
    → pos_part pin < 32
    → refused pin g ≡ false
    → gpio_toggle pin g ≡ gpio_write pin (not ((bank_of g).levels (pos_part pin))) g
unfolding gpio_toggle toggle_of
toggle-done pin g h r = ap (toggle_of pin g) (read-done pin g h r)

pub ShadowFits-write :
    (pin : ℤ) (level : Bool) (g : Gpio)
    → pos_part pin < 32
    → ShadowFits g
    → ShadowFits (gpio_write pin level g).1
unfolding ShadowFits
ShadowFits-write pin level g h fits = elim (accepts pin g) [
  | inl (r, e) ↦ rw (write-refused pin level g r) fits
  | inr (r, e) ↦ rw (write-done pin level g h r) (put-lt level (pos_part pin) g.out_shadow)
]

not_refused :
    (pin : ℤ) (g : Gpio) → g.init ≡ true → ltb_ℤ pin (pos 0) ≡ false → refused pin g ≡ false
unfolding refused
not_refused pin g up sign = rw up (rw sign refl)

-- What a write that is not refused shows.
pub bank_of-gpio_write :
    (pin : ℤ) (level : Bool) (g : Gpio)
    → g.init ≡ true
    → ltb_ℤ pin (pos 0) ≡ false
    → pos_part pin < 32
    → ShadowFits g
    → bank_of (gpio_write pin level g).1 ≡ put_level pin level (bank_of g)
bank_of-gpio_write pin level g up sign h fits =
    ap (λ (r : Err × Gpio). bank_of r.1) (write-done pin level g h (not_refused pin g up sign))
    ∙ bank_of-put pin level g h fits
