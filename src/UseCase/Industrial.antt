-- ===== src/UseCase/Industrial.antt =====
-- The first half of components/iot_usecases/src/iot_uc_industrial.c: the machine monitor, whose
-- state is `g`.
pub mod Faults
use esp32_iot_products.CText.{Text, codes, show_u}
use esp32_iot_products.UseCase.Json.{read_f32}
use esp32_iot_products.UseCase.Types.{UcId, In, Out, set_at, Handler, zero_in, out_ok}
use esp32_iot_products.UseCase.Reply.{member, quoted, reply_text}
use esp32_iot_products.Core.Err.{Err, ok}
use esp32_iot_products.Core.Float.{Float, whole}
use esp32_iot_products.Prelude.Words.{add32}
use esp32_iot_products.Prelude.{[], Bool, ◌==◌, ◌∷◌, true, ltb, false, ◌||◌, ℕ, if◌then◌else◌}

-- `ind_state_t`
pub data IndState : Type 0 where
  stop idle run warn fault : IndState

-- `g.st == ST_FAULT` and the like
unfoldable pub is_fault : IndState → Bool
is_fault fault = true
is_fault _ = false

pub is_warn : IndState → Bool
is_warn warn = true
is_warn _ = false

pub is_run : IndState → Bool
is_run run = true
is_run _ = false

-- `ind_st_t`
pub record Ind (F : Type 0) : Type 0 where
  pub temp : F
  pub vib : F
  pub current : F
  pub pressure : F
  pub t_lim : F
  pub vib_lim : F
  pub i_lim : F
  pub p_lim : F
  pub hours : F
  pub pulses : ℕ
  pub ack_needed : ℕ
  pub st : IndState

pub st_name : IndState → Text
st_name stop = codes "STOP"
st_name idle = codes "IDLE"
st_name run = codes "RUN"
st_name warn = codes "WARN"
st_name fault = codes "FAULT"

module _ {F : Type 0} ⦃fl : Float F⦄ where
  unfoldable pub ind_init : Ind F
  ind_init = record {
    temp = whole 0;
    vib = whole 0;
    current = whole 0;
    pressure = whole 0;
    t_lim = whole 80;
    vib_lim = whole 40;
    i_lim = whole 12;
    p_lim = whole 8;
    hours = whole 0;
    pulses = 0;
    ack_needed = 0;
    st = idle;
  }

  ind_text : Ind F → UcId → Text
  ind_text g id = reply_text 360 id (
      member (codes "t") (fl.fixed 2 g.temp)
      ∷ member (codes "vib") (fl.fixed 1 g.vib)
      ∷ member (codes "i") (fl.fixed 2 g.current)
      ∷ member (codes "p_bar") (fl.fixed 2 g.pressure)
      ∷ member (codes "state") (quoted (st_name g.st))
      ∷ member (codes "hours") (fl.fixed 2 g.hours)
      ∷ member (codes "pulse") (show_u g.pulses)
      ∷ [])

  ind_json : Ind F → Out F → UcId → Out F
  ind_json g out id =
      let out' = out_ok out id (ind_text g id) in
      record out' {
        alarm = is_fault g.st || is_warn g.st;
        f = set_at (set_at out'.f 0 g.temp) 1 g.vib;
      }

  pub ind_step_state : Ind F → Ind F
  ind_step_state g =
      if fl.gt g.temp g.t_lim || fl.gt g.current g.i_lim || fl.gt g.pressure g.p_lim
      then record g { st = fault; ack_needed = 1 }
      else (if fl.gt g.vib g.vib_lim
          then record g { st = warn }
          else (if is_fault g.st
              then g
              else record g { st = if fl.gt g.current (fl.lit 4 10) then run else idle }))

  -- `g.hours += x`
  add_hours : F → Ind F → Ind F
  add_hours x g = record g { hours = fl.add g.hours x }

  ind_reply : UcId → Err → Out F → Ind F → Err × Out F × Ind F
  ind_reply id e out g = (e, ind_json g out id, g)

  -- `iot_uc_ind_sample` up to its call of `ind_step_state`: what the sample writes into `g`.
  ind_measure : In F → Ind F → Ind F
  ind_measure inp g = record g {
    temp = read_f32 inp (codes "t") (inp.f 0);
    vib = read_f32 inp (codes "vib") (inp.f 1);
    current = read_f32 inp (codes "i") (inp.f 2);
    pressure = read_f32 inp (codes "p_bar") (inp.f 3);
    pulses = if ltb 0 (inp.u 0) then inp.u 0 else g.pulses;
  }

  pub ind_sample : Handler F (Ind F)
  ind_sample inp out g =
      let g' = ind_step_state (ind_measure inp g) in
      ind_reply UcId.ind_sample ok out
        (if is_run g'.st then add_hours (fl.div (whole 1) (whole 3600)) g' else g')

  pub ind_on_sample : F → F → F → F → ℕ → Out F → Ind F → Err × Out F × Ind F
  ind_on_sample temp vib current pressure pulses out g =
      let blank : In F = zero_in in
      ind_sample
        (record blank {
          f = set_at (set_at (set_at (set_at blank.f 0 temp) 1 vib) 2 current) 3 pressure;
          u = set_at blank.u 0 pulses;
        })
        out g

  pub ind_state : Handler F (Ind F)
  ind_state inp out g = ind_reply UcId.ind_state_machine ok out (ind_step_state g)

  -- The readers leave a limit alone where `json` is NULL.
  pub ind_set_limits : Handler F (Ind F)
  ind_set_limits inp out g = ind_reply UcId.ind_set_limits ok out (record g {
    t_lim = read_f32 inp (codes "t_lim") g.t_lim;
    vib_lim = read_f32 inp (codes "vib_lim") g.vib_lim;
    i_lim = read_f32 inp (codes "i_lim") g.i_lim;
    p_lim = read_f32 inp (codes "p_lim") g.p_lim;
  })

  pub ind_ack : Handler F (Ind F)
  ind_ack inp out g =
      ind_reply UcId.ind_ack_alarm ok out
        (if is_fault g.st then record g { st = idle; ack_needed = 0 } else g)

  pub ind_hours : Handler F (Ind F)
  ind_hours inp out g =
      let dt_s = if fl.gt (inp.f 0) (whole 0) then inp.f 0 else whole 1 in
      ind_reply UcId.ind_hours_tick ok out
        (if is_run g.st then add_hours (fl.div dt_s (whole 3600)) g else g)

  pub ind_pulse : Handler F (Ind F)
  ind_pulse inp out g =
      let add = if inp.u 0 == 0 then 1 else inp.u 0 in
      ind_reply UcId.ind_pulse ok out (record g { pulses = add32 g.pulses add })
