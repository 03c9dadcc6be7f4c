-- ===== src/Rtos/Sync/Clock.antt =====
-- What sleeping does to the clock of a POSIX host in components/iot_rtos/src/iot_rtos.c.
use esp32_iot_products.Rtos.Sync.{delay_span, millis_posix}
use esp32_iot_products.Prelude.Words.{add32}
use esp32_iot_products.Prelude.{ℕ, ◌%◌, arith, ◌<◌, ◌+◌, ◌≡◌, ◌/◌, ◌*◌}

-- A clock that has run for so many nanoseconds.
unfoldable pub millis_at : ℕ → ℕ
millis_at ns = millis_posix (ns / 1000000000) (ns % 1000000000)

unfoldable pub span_of : ℕ → ℕ
span_of ms = (delay_span ms).0 * 1000000000 + (delay_span ms).1

span_of_lem : (ms : ℕ) → span_of ms ≡ ms * 1000000
unfolding span_of delay_span
span_of_lem ms = omega arith

-- The nanoseconds of a delay are fewer than a second, and a clock that stands still but for the delay
-- shows its milliseconds afterwards, modulo 2 ^ 32.
pub millis_at-delay_span :
    (ms ns : ℕ)
    → ((delay_span ms).1 < 1000000000) × (millis_at (ns + span_of ms) ≡ add32 (millis_at ns) ms)
unfolding millis_at millis_posix delay_span add32
millis_at-delay_span ms ns = (omega arith, rw (span_of_lem ms) (omega arith))
