-- ===== src/UseCase/Charger.antt =====
-- The first half of components/iot_usecases/src/iot_uc_ev_auto.c: the gateway of an EV charger,
-- whose state is `ev`.
pub mod Gateway
use esp32_iot_products.CText.{Text, codes, strstr, snprintf, show_u, show_d}
use esp32_iot_products.UseCase.Json.{read_i32, holds}
use esp32_iot_products.UseCase.Types.{UcId, In, Out, set_at, Handler, zero_in, out_ok, out_err}
use esp32_iot_products.UseCase.Reply.{member, quoted, reply_text}
use esp32_iot_products.Core.Err.{Err, ok, denied}
use esp32_iot_products.Core.Float.{Float, whole}
use esp32_iot_products.Prelude.Int.{ℤ, pos, nonzero, of_bool}
use esp32_iot_products.Prelude.Words.{add32, rem}
use esp32_iot_products.Prelude.{none, ℕ, [], ◌∷◌, ◌==◌, Bool, true, false, if◌then◌else◌, some}
use esp32_iot_products.Core.Types.{json_telemetry_len}

-- `ev_st_t`
pub record Ev (F : Type 0) : Type 0 where
  pub state : Text
  pub e_kwh : F
  pub temp : F
  pub session : ℕ
  pub fault : ℤ

module _ {F : Type 0} ⦃fl : Float F⦄ where
  unfoldable pub ev_init : Ev F
  ev_init = record {
    state = codes "Idle";
    e_kwh = whole 0;
    temp = whole 0;
    session = 0;
    fault = pos 0;
  }

  ev_text : Ev F → UcId → Text
  ev_text ev id = reply_text 280 id (
      member (codes "chg_state") (quoted ev.state)
      ∷ member (codes "e_kwh") (fl.fixed 3 ev.e_kwh)
      ∷ member (codes "t") (fl.fixed 1 ev.temp)
      ∷ member (codes "fault") (show_d ev.fault)
      ∷ member (codes "session") (show_u ev.session)
      ∷ member (codes "safety") (quoted (codes "external"))
      ∷ [])

  ev_json : Ev F → Out F → UcId → Out F
  ev_json ev out id =
      let out' = out_ok out id (ev_text ev id) in
      record out' { alarm = nonzero ev.fault; f = set_at (set_at out'.f 0 ev.e_kwh) 1 ev.temp }

  ev_reply : UcId → Out F → Ev F → Err × Out F × Ev F
  ev_reply id out ev = (ok, ev_json ev out id, ev)

  -- `25.0f + ((float)(mv % 200) / 20.0f)`
  pub temp_of : ℤ → F
  temp_of mv = fl.add (whole 25) (fl.div (fl.of_int (rem mv 200)) (whole 20))

  pub ev_sample : Handler F (Ev F)
  ev_sample inp out ev =
      let mv = inp.i 0 in
      ev_reply UcId.ev_sample out (record ev {
        e_kwh = fl.div (fl.of_int mv) (whole 10000);
        temp = temp_of mv;
        fault = of_bool (fl.gt (temp_of mv) (whole 70));
      })

  pub ev_on_sample : ℤ → Out F → Ev F → Err × Out F × Ev F
  ev_on_sample mv out ev =
      let blank : In F = zero_in in ev_sample (record blank { i = set_at blank.i 0 mv }) out ev

  unfoldable pub ev_reject_contactor : Handler F (Ev F)
  ev_reject_contactor inp out ev =
      let out' = out_err out UcId.ev_reject_contactor denied in
      (
        denied,
        record out' {
          json =
              snprintf json_telemetry_len
                (codes "{\"uc\":\"ev.reject_contactor\",\"err\":\"safety_not_on_esp32c3\"}");
          err = denied;
        },
        ev,
      )

  -- `(in->json != NULL) && (strstr(in->json, "contactor") != NULL)`
  pub names_contactor : In F → Bool
  names_contactor inp = elim inp.json [
    | none ↦ false
    | some json ↦ elim (strstr json (codes "contactor")) [ none ↦ false | some p ↦ true ]
  ]

  pub ev_start : Handler F (Ev F)
  ev_start inp out ev =
      if names_contactor inp
      then ev_reject_contactor inp out ev
      else ev_reply UcId.ev_start_req out (record ev {
        state = codes "Charging";
        session = if ev.session == 0 then 1 else ev.session;
      })

  pub ev_stop : Handler F (Ev F)
  ev_stop inp out ev = ev_reply UcId.ev_stop_req out (record ev { state = codes "Idle" })

  pub ev_session : Handler F (Ev F)
  ev_session inp out ev =
      let op =
        if holds inp (codes "session") then read_i32 inp (codes "session") (pos 1) else pos 1 in
      ev_reply UcId.ev_session out (
        if nonzero op
        then record ev { session = add32 ev.session 1 }
        else record ev { session = 0; state = codes "Idle" })

  pub ev_fault : Handler F (Ev F)
  ev_fault inp out ev =
      ev_reply UcId.ev_fault_latch out (record ev { fault = pos 1; state = codes "Fault" })

  pub ev_get_state : Handler F (Ev F)
  ev_get_state inp out ev = ev_reply UcId.ev_get_state out ev
