-- ===== src/Rtos/EventWait/Rounds.antt =====
-- How often the wait of components/iot_rtos/src/iot_rtos.c for a Windows host looks at the bits.
use esp32_iot_products.Prelude.Words.{add32}
use esp32_iot_products.Rtos.EventWait.{Waited, woken, too_late, ready, wait_loop}
use esp32_iot_products.Prelude.{
  false, suc, refl, ◌*◌, arith, ◌<◌, ◌≡◌, ◌+◌, Bool, ◌^◌, ◌/◌, leb, ℕ, if◌then◌else◌, zero, true,
}

module _ (bits timeout_ms : ℕ) (wait_all : Bool) (word : ℕ → ℕ) where
  -- The first of `n` rounds, from `i` on, that finds the bits.
  pub first_ready : ℕ → ℕ → Waited
  first_ready zero i = too_late
  first_ready (suc n) i =
      let later = first_ready n (i + 1) in
      if ready bits wait_all (word i) then woken i (word i) else later

  wait_loop-first_ready :
      (n fuel i : ℕ)
      → timeout_ms + 5 < 2 ^ 32
      → n < fuel
      → i + n ≡ timeout_ms / 5 + 1
      → wait_loop bits timeout_ms wait_all word fuel (5 * i) i ≡ first_ready n i
  unfolding wait_loop first_ready add32
  wait_loop-first_ready zero (suc fuel) i small more upto =
      let past : leb (5 * i) timeout_ms ≡ false = ground arith in rw past refl
  wait_loop-first_ready (suc n) (suc fuel) i small more upto =
      let in_time : leb (5 * i) timeout_ms ≡ true = ground arith in
      let on : add32 (5 * i) 5 ≡ 5 * (i + 1) = ground (arith, in_time) in
      rw (in_time, on, wait_loop-first_ready n fuel (i + 1) small (ground arith) (ground arith))
        refl
  wait_loop-first_ready n zero i small more upto = absurd (ground arith)

  -- For a timeout that leaves room for the addition, the loop ends: it looks at the bits in at most
  -- timeout / 5 + 1 rounds, and returns what the first of them finds that finds the bits asked for.
  pub wait_loop_ends :
      (fuel : ℕ)
      → timeout_ms + 5 < 2 ^ 32
      → timeout_ms / 5 + 1 < fuel
      → wait_loop bits timeout_ms wait_all word fuel 0 0 ≡ first_ready (timeout_ms / 5 + 1) 0
  wait_loop_ends fuel small more =
      wait_loop-first_ready (timeout_ms / 5 + 1) fuel 0 small more (ground arith)
