-- ===== src/UseCase/Robot/Heartbeat.antt =====
-- The watchdog over the robot's serial line of components/iot_usecases/src/iot_uc_field.c.
use esp32_iot_products.UseCase.Robot.{Robot, robot_uart, robot_hb, robot_on_uart}
use esp32_iot_products.UseCase.Types.{Out, zero_in}
use esp32_iot_products.Core.Float.{Float}
use esp32_iot_products.Prelude.Words.{add32}
use esp32_iot_products.Prelude.{
  false, ◌%◌, suc, ◌≢◌, ◌↔◌, ◌≤◌, ◌+◌, ◌^◌, arith, ◌≡◌, ◌*◌, zero, ℕ, ◌<◌, true,
}

module _ {F : Type 0} ⦃fl : Float F⦄ where
  -- The gateway after `n` samples in which no byte arrived.
  pub silent : ℕ → Out F → Robot → Robot
  silent zero out rb = rb
  silent (suc n) out rb = (robot_on_uart 0 out (silent n out rb)).2

  hb_age-silent :
      (n : ℕ) (out : Out F) (rb : Robot)
      → rb.hb_age_ms < 2 ^ 32
      → (silent n out rb).hb_age_ms ≡ (rb.hb_age_ms + 200 * n) % 2 ^ 32
  unfolding silent robot_on_uart robot_uart robot_hb zero_in add32
  hb_age-silent zero out rb h = omega arith
  hb_age-silent (suc n) out rb h = ground (arith, hb_age-silent n out rb h)

  -- After a heartbeat, the reply to the n-th silent sample in a row raises the alarm exactly from
  -- the 26th on, up to the 21474836th, where the age wraps round.
  pub alarm-silent :
      (n : ℕ) (out : Out F) (rb : Robot)
      → rb.hb_age_ms ≡ 0
      → suc n ≤ 21474836
      → ((robot_on_uart 0 out (silent n out rb)).1.alarm ≡ true) ↔ (26 ≤ suc n)
  unfolding robot_on_uart robot_uart robot_hb zero_in add32
  alarm-silent n out rb h k = ground (arith, hb_age-silent n out rb (omega (arith, h)))

  -- Any byte that arrives, unless their number is a multiple of 2 ^ 32, brings the age back to 0 and
  -- clears the alarm of the reply.
  pub robot_on_uart-heard :
      (n : ℕ) (out : Out F) (rb : Robot)
      → n % 2 ^ 32 ≢ 0
      → let (e, out', rb') = robot_on_uart n out rb in
        (rb'.hb_age_ms ≡ 0) × (rb'.uart_n ≡ n % 2 ^ 32) × (out'.alarm ≡ false)
  unfolding robot_on_uart robot_uart robot_hb zero_in add32
  robot_on_uart-heard n out rb h = ground arith
