-- ===== src/Rtos/Event/Flags.antt =====
-- The word of an event group of components/iot_rtos/src/iot_rtos.c, flag by flag.
use Prim.Native.Nat.{bit_and, bit_or}
use esp32_iot_products.Prelude.Bits.{digit, digit-bit_or, digit-bit_and, digit-le, digit-complement}
use esp32_iot_products.Prelude.Words.{u32_mod}
use esp32_iot_products.Rtos.Event.{Event, complement, event_set, event_clear, event_wait}
use esp32_iot_products.Prelude.{
  arith, false, List, ◌∙◌, ◌≡◌, ap, refl, ◌∷◌, some, [], if◌then◌else◌, ◌<◌, ◌&&◌, ℕ, true, ◌≤◌,
  Bool, ◌==◌,
}

-- A call on the group, with its mask; the flag of a wait tells whether it clears what it waits for.
pub data EventAct : Type 0 where
  set_bits : ℕ → EventAct
  clear_bits : ℕ → EventAct
  wait_bits : ℕ → Bool → EventAct

unfoldable pub event_act : EventAct → Event → Event
event_act (set_bits bits) e = event_set e bits
event_act (clear_bits bits) e = event_clear e bits
event_act (wait_bits bits clear) e = (event_wait e bits clear).1

unfoldable pub event_acts : List EventAct → Event → Event
event_acts [] e = e
event_acts (a ∷ acts) e = event_acts acts (event_act a e)

-- What is left of one flag, from its own digit in each mask.
unfoldable pub flag_act : ℕ → EventAct → ℕ → ℕ
flag_act q (set_bits bits) flag = if digit q bits == 1 then 1 else flag
flag_act q (clear_bits bits) flag = if digit q bits == 1 then 0 else flag
flag_act q (wait_bits bits clear) flag = if clear && (digit q bits == 1) then 0 else flag

unfoldable pub flag_acts : ℕ → List EventAct → ℕ → ℕ
flag_acts q [] flag = flag
flag_acts q (a ∷ acts) flag = flag_acts q acts (flag_act q a flag)

unfoldable pub WordMask : EventAct → Type 0
WordMask (set_bits bits) = bits < u32_mod
WordMask (clear_bits bits) = bits < u32_mod
WordMask (wait_bits bits clear) = bits < u32_mod

unfoldable pub WordMasks : List EventAct → Type 0
WordMasks [] = 0 ≤ 0
WordMasks (a ∷ acts) = WordMask a × WordMasks acts

flag-set :
    (q bits cur : ℕ) → digit q (bit_or cur bits) ≡ (if digit q bits == 1 then 1 else digit q cur)
flag-set q bits cur = ground (arith, digit-bit_or q cur bits, digit-le q cur, digit-le q bits)

flag-clear :
    (q bits cur : ℕ)
    → q < 32
    → bits < u32_mod
    → digit q (bit_and cur (complement bits)) ≡ (if digit q bits == 1 then 0 else digit q cur)
flag-clear q bits cur h fits = ground (
  arith,
  digit-bit_and q cur (complement bits),
  digit-complement q 32 bits h fits,
  digit-le q cur,
  digit-le q bits,
)

-- One call on a group that holds `cur`: the group stays, and its flag is as `flag_act` says.
event_act_lem :
    (q cur : ℕ) (a : EventAct)
    → q < 32
    → WordMask a
    → (after : ℕ) × (event_act a (some cur) ≡ some after)
      × (digit q after ≡ flag_act q a (digit q cur))
unfolding event_act flag_act WordMask event_set event_clear event_wait
event_act_lem q cur (set_bits bits) h fits = (_, refl, flag-set q bits cur)
event_act_lem q cur (clear_bits bits) h fits = (_, refl, flag-clear q bits cur h fits)
event_act_lem q cur (wait_bits bits true) h fits = (_, refl, flag-clear q bits cur h fits)
event_act_lem q cur (wait_bits bits false) h fits = (_, refl, refl)

-- For a group that has been made and masks of 32 bits: after any calls, each of the 32 flags is what
-- its own digits of the masks make of it, whatever the other digits are.
pub event_acts-flag_acts :
    (q cur : ℕ) (acts : List EventAct)
    → q < 32
    → WordMasks acts
    → (after : ℕ) × (event_acts acts (some cur) ≡ some after)
      × (digit q after ≡ flag_acts q acts (digit q cur))
unfolding event_acts flag_acts WordMasks
event_acts-flag_acts q cur [] h fits = (cur, refl, refl)
event_acts-flag_acts q cur (a ∷ acts) h (f, fits) =
    let (mid, e, d) = event_act_lem q cur a h f in
    let (after, es, ds) = event_acts-flag_acts q mid acts h fits in
    (after, ap (event_acts acts) e ∙ es, ds ∙ ap (flag_acts q acts) d)
