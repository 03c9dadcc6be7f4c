-- ===== src/UseCase/Automotive.antt =====
-- The second half of components/iot_usecases/src/iot_uc_ev_auto.c: the CAN gateway, whose state is
-- `can`.
pub mod Frames
use esp32_iot_products.CText.{Text, codes, snprintf, show_u, show_d}
use esp32_iot_products.UseCase.Json.{read_i32, holds}
use esp32_iot_products.UseCase.Types.{UcId, In, Out, set_at, Handler, zero_in, out_ok, out_err}
use esp32_iot_products.UseCase.Reply.{member, quoted, reply_text}
use esp32_iot_products.Core.Err.{Err, ok, denied}
use esp32_iot_products.Core.Float.{Float}
use esp32_iot_products.Prelude.Int.{ℤ, pos, nonzero, of_bool}
use esp32_iot_products.Prelude.Words.{add32, u32_of_int}
use esp32_iot_products.Prelude.{ℕ, [], ◌∷◌, ◌==◌, true, ◌&&◌, ◌%◌, leb, not, if◌then◌else◌}
use esp32_iot_products.Core.Types.{json_telemetry_len}

-- `auto_st_t`
pub record Can : Type 0 where
  pub allow_min : ℕ
  pub allow_max : ℕ
  pub last_id : ℕ
  pub speed : ℕ
  pub rpm : ℕ
  pub coolant : ℕ
  pub bus_off : ℕ
  pub dtc : ℕ
  pub accepted : ℤ

unfoldable pub can_init : Can
can_init = record {
  allow_min = 0x100;
  allow_max = 0x7ff;
  last_id = 0;
  speed = 0;
  rpm = 0;
  coolant = 0;
  bus_off = 0;
  dtc = 0;
  accepted = pos 0;
}

can_text : Can → UcId → Text
can_text can id = reply_text 280 id (
    member (codes "can_id") (show_u can.last_id)
    ∷ member (codes "speed_kph") (show_u can.speed)
    ∷ member (codes "rpm") (show_u can.rpm)
    ∷ member (codes "coolant") (show_u can.coolant)
    ∷ member (codes "accepted") (show_d can.accepted)
    ∷ member (codes "bus_off") (show_u can.bus_off)
    ∷ member (codes "dtc") (show_u can.dtc)
    ∷ member (codes "hw") (quoted (codes "mcp2515"))
    ∷ [])

module _ {F : Type 0} ⦃fl : Float F⦄ where
  auto_json : Can → Out F → UcId → Out F
  auto_json can out id =
      let out' = out_ok out id (can_text can id) in
      record out' { u = set_at (set_at out'.u 0 can.last_id) 1 can.speed }

  pub auto_filter : Handler F Can
  auto_filter inp out can =
      let id = inp.u 0 in
      let pass = leb can.allow_min id && leb id can.allow_max in
      let can' = record can { last_id = id; accepted = of_bool pass } in
      (if nonzero can'.accepted then ok else denied, auto_json can' out UcId.auto_filter, can')

  pub auto_decode : Handler F Can
  auto_decode inp out can =
      let can' = record can {
        speed = inp.u 1 % 250;
        rpm = add32 800 (inp.u 2 % 4000);
        coolant = add32 70 (inp.u 3 % 40);
      } in
      (ok, auto_json can' out UcId.auto_decode, can')

  unfoldable pub auto_reject_tx : Handler F Can
  auto_reject_tx inp out can =
      let out' = out_err out UcId.auto_reject_tx denied in
      (
        denied,
        record out' {
          json =
              snprintf json_telemetry_len
                (codes "{\"uc\":\"auto.reject_tx\",\"err\":\"no_cloud_can_inject\"}");
          err = denied;
        },
        can,
      )

  pub auto_bus_off : Handler F Can
  auto_bus_off inp out can =
      let can' = record can { bus_off = add32 can.bus_off 1 } in
      let out' = auto_json can' out UcId.auto_bus_off in (ok, record out' { alarm = true }, can')

  pub auto_dtc : Handler F Can
  auto_dtc inp out can =
      let code = if holds inp (codes "dtc") then read_i32 inp (codes "dtc") (pos 1) else pos 1 in
      let can' = record can { dtc = u32_of_int code } in
      let out' = auto_json can' out UcId.auto_dtc in
      (ok, record out' { alarm = not (can'.dtc == 0) }, can')

  pub auto_get_state : Handler F Can
  auto_get_state inp out can = (ok, auto_json can out UcId.auto_get_state, can)

  pub auto_on_frame : ℕ → ℕ → ℕ → ℕ → Out F → Can → Err × Out F × Can
  auto_on_frame can_id speed rpm coolant out can =
      let blank : In F = zero_in in
      let inp : In F = record blank {
        u = set_at (set_at (set_at (set_at blank.u 0 can_id) 1 speed) 2 rpm) 3 coolant;
      } in
      let (e, out', can') = auto_filter inp out can in
      elim e [ ok ↦ auto_decode inp out' can' | other ↦ (other, out', can') ]
