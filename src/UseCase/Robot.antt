-- ===== src/UseCase/Robot.antt =====
-- The last part of components/iot_usecases/src/iot_uc_field.c: the robotics gateway, whose state is
-- `rb`.
pub mod Heartbeat
use esp32_iot_products.CText.{Text, codes, snprintf, show_u, show_d}
use esp32_iot_products.UseCase.Json.{read_i32, holds}
use esp32_iot_products.UseCase.Types.{UcId, In, Out, set_at, Handler, zero_in, out_ok, out_err}
use esp32_iot_products.UseCase.Reply.{member, reply_text}
use esp32_iot_products.Core.Err.{Err, ok, denied}
use esp32_iot_products.Core.Float.{Float}
use esp32_iot_products.Prelude.Int.{ℤ, pos, ltb_ℤ, nonzero}
use esp32_iot_products.Prelude.Words.{u32_mod, add32}
use esp32_iot_products.Prelude.{ℕ, [], ◌∷◌, ◌==◌, ◌%◌, ltb, if◌then◌else◌}
use esp32_iot_products.Core.Types.{json_telemetry_len}

-- `rob_st_t`
pub record Robot : Type 0 where
  pub uart_n : ℕ
  pub hb_age_ms : ℕ
  pub estop : ℤ
  pub batt_mv : ℤ

unfoldable pub robot_init : Robot
robot_init = record { uart_n = 0; hb_age_ms = 0; estop = pos 0; batt_mv = pos 22200 }

robot_text : Robot → UcId → Text
robot_text rb id = reply_text 240 id (
    member (codes "uart_bytes") (show_u (rb.uart_n % u32_mod))
    ∷ member (codes "hb_ms") (show_u rb.hb_age_ms)
    ∷ member (codes "estop") (show_d rb.estop)
    ∷ member (codes "batt_mv") (show_d rb.batt_mv)
    ∷ [])

module _ {F : Type 0} ⦃fl : Float F⦄ where
  rb_json : Robot → Out F → UcId → Out F
  rb_json rb out id =
      let out' = out_ok out id (robot_text rb id) in record out' { alarm = nonzero rb.estop }

  pub robot_uart : Handler F Robot
  robot_uart inp out rb =
      let n = inp.u 0 in
      let rb' = record rb { uart_n = n; hb_age_ms = if ltb 0 n then 0 else rb.hb_age_ms } in
      (ok, rb_json rb' out UcId.robot_uart, rb')

  pub robot_hb : Handler F Robot
  robot_hb inp out rb =
      let rb' = record rb {
        hb_age_ms = if rb.uart_n == 0 then add32 rb.hb_age_ms 200 else rb.hb_age_ms;
      } in
      let out' = rb_json rb' out UcId.robot_heartbeat in
      (ok, record out' { alarm = ltb 5000 rb'.hb_age_ms }, rb')

  unfoldable pub robot_reject : Handler F Robot
  robot_reject inp out rb =
      let out' = out_err out UcId.robot_reject_motion denied in
      (
        denied,
        record out' {
          json =
              snprintf json_telemetry_len
                (codes "{\"uc\":\"robot.reject_motion\",\"err\":\"motion_on_robot_mcu_only\"}");
          err = denied;
        },
        rb,
      )

  pub robot_estop : Handler F Robot
  robot_estop inp out rb =
      let e = if holds inp (codes "estop") then read_i32 inp (codes "estop") (pos 1) else pos 1 in
      let rb' = record rb { estop = e } in (ok, rb_json rb' out UcId.robot_estop_report, rb')

  pub robot_batt : Handler F Robot
  robot_batt inp out rb =
      let given = if ltb_ℤ (pos 0) (inp.i 0) then inp.i 0 else rb.batt_mv in
      let rb' = record rb {
        batt_mv =
            if holds inp (codes "batt_mv") then read_i32 inp (codes "batt_mv") (pos 0) else given;
      } in
      let out' = rb_json rb' out UcId.robot_battery in
      (ok, record out' { alarm = ltb_ℤ rb'.batt_mv (pos 18000) }, rb')

  pub robot_on_uart : ℕ → Out F → Robot → Err × Out F × Robot
  robot_on_uart n out rb =
      let blank : In F = zero_in in
      let inp : In F = record blank { u = set_at blank.u 0 (n % u32_mod) } in
      let (e, out', rb') = robot_uart inp out rb in robot_hb inp out' rb'
