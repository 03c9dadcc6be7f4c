-- ===== src/Rtos/EventWait.antt =====
-- iot_event_wait of components/iot_rtos/src/iot_rtos.c for a Windows host: it looks at the bits every
-- 5 ms. The bits are those that the other tasks have left by then.
pub mod Rounds
use Prim.Native.Nat.{bit_and}
use esp32_iot_products.Prelude.Words.{add32}
use esp32_iot_products.Rtos.Event.{complement}
use esp32_iot_products.Prelude.{
  suc, not, some, ◌+◌, Bool, none, leb, ℕ, Option, ◌==◌, if◌then◌else◌, zero,
}

-- How a wait ends: in time, in which round and with which bits; or not. A model that runs out of
-- fuel says so.
pub data Waited : Type 0 where
  woken : ℕ → ℕ → Waited
  too_late no_fuel : Waited

-- `wait_all ? ((cur & bits) == bits) : ((cur & bits) != 0U)`
pub ready : ℕ → Bool → ℕ → Bool
ready bits wait_all cur = if wait_all then bit_and cur bits == bits else not (bit_and cur bits == 0)

module _ (bits timeout_ms : ℕ) (wait_all : Bool) (word : ℕ → ℕ) where
  -- The loop, from the round `i` on; `word i` are the bits that the round finds.
  unfoldable pub wait_loop : ℕ → ℕ → ℕ → Waited
  wait_loop zero elapsed i = no_fuel
  wait_loop (suc fuel) elapsed i =
      let later = wait_loop fuel (add32 elapsed 5) (i + 1) in
      if leb elapsed timeout_ms
      then (if ready bits wait_all (word i) then woken i (word i) else later)
      else too_late

  -- The bits returned, and those that are left: 0 on a timeout.
  pub event_wait_polling : ℕ → Bool → ℕ → Option (ℕ × ℕ)
  event_wait_polling fuel clear left = elim (wait_loop fuel 0 0) [
    | woken i cur ↦ some (cur, if clear then bit_and cur (complement bits) else cur)
    | too_late ↦ some (0, left)
    | no_fuel ↦ none
  ]
