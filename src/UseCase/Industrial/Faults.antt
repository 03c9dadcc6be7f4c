-- ===== src/UseCase/Industrial/Faults.antt =====
-- The state machine of components/iot_usecases/src/iot_uc_industrial.c: when it enters FAULT, and
-- what leads out of it.
use esp32_iot_products.UseCase.Industrial.{
  warn, fault, is_fault, Ind, ind_step_state, is_warn, is_run, ind_sample, ind_state,
  ind_set_limits, ind_ack, ind_hours, ind_pulse, ind_json, add_hours, ind_reply, ind_measure,
  ind_on_sample,
}
use esp32_iot_products.Core.Float.{Float, whole}
use esp32_iot_products.Prelude.{◌||◌, arith, true, ◌≡◌, ◌↔◌, Bool, false, ◌⊎◌, if◌then◌else◌, ℕ}
use esp32_iot_products.UseCase.Types.{In, Out, Preserves}
use esp32_iot_products.Core.Err.{ok}

module _ {F : Type 0} ⦃fl : Float F⦄ where
  -- A limit other than that of the vibration is passed.
  abbrev pub over_limit : Ind F → Bool
  over_limit g = fl.gt g.temp g.t_lim || fl.gt g.current g.i_lim || fl.gt g.pressure g.p_lim

  abbrev pub shakes : Ind F → Bool
  shakes g = fl.gt g.vib g.vib_lim

  -- One step of the machine is in FAULT exactly when a temperature, current or pressure limit is
  -- passed, or it was in FAULT already and the vibration is within its limit.
  pub is_fault-ind_step_state :
      (g : Ind F)
      → (is_fault (ind_step_state g).st ≡ true)
        ↔ ((over_limit g ≡ true) ⊎ ((is_fault g.st ≡ true) × (shakes g ≡ false)))
  unfolding ind_step_state is_fault
  is_fault-ind_step_state g = ground arith

  -- A machine in FAULT whose vibration alone is past its limit steps to WARN, with no
  -- acknowledgement: the flag that asks for one is left as it was.
  pub fault_unlatched :
      (g : Ind F)
      → g.st ≡ fault
      → over_limit g ≡ false
      → shakes g ≡ true
      → ((ind_step_state g).st ≡ warn) × ((ind_step_state g).ack_needed ≡ g.ack_needed)
  unfolding ind_step_state is_fault
  fault_unlatched g f o v = ground arith

  -- A fault asks for an acknowledgement.
  pub record AsksAck (g : Ind F) : Type 0 where
    pub asked : is_fault g.st ≡ true → g.ack_needed ≡ 1

  pub ind_step_state-AsksAck : (g : Ind F) → AsksAck g → AsksAck (ind_step_state g)
  unfolding ind_step_state is_fault
  ind_step_state-AsksAck g v = ground (arith, v.asked)

  pub ind_sample-AsksAck : Preserves AsksAck ind_sample
  unfolding ind_sample ind_reply ind_measure add_hours
  ind_sample-AsksAck inp out g v =
      let step = ind_step_state-AsksAck (ind_measure inp g) (record { asked = v.asked }) in
      record { asked = ground (arith, step.asked) }

  pub ind_state-AsksAck : Preserves AsksAck ind_state
  unfolding ind_state ind_reply
  ind_state-AsksAck inp out g v = ind_step_state-AsksAck g v

  pub ind_set_limits-AsksAck : Preserves AsksAck ind_set_limits
  unfolding ind_set_limits ind_reply
  ind_set_limits-AsksAck inp out g v = record { asked = v.asked }

  pub ind_ack-AsksAck : Preserves AsksAck ind_ack
  unfolding ind_ack ind_reply is_fault
  ind_ack-AsksAck inp out g v = ground (arith, v.asked)

  pub ind_hours-AsksAck : Preserves AsksAck ind_hours
  unfolding ind_hours ind_reply add_hours
  ind_hours-AsksAck inp out g v = ground (arith, v.asked)

  pub ind_pulse-AsksAck : Preserves AsksAck ind_pulse
  unfolding ind_pulse ind_reply
  ind_pulse-AsksAck inp out g v = record { asked = v.asked }

  ind_step_state-Latches :
      (g : Ind F)
      → is_fault g.st ≡ true
      → let g' = ind_step_state g in (is_fault g'.st ≡ true) ⊎ (shakes g' ≡ true)
  unfolding ind_step_state is_fault
  ind_step_state-Latches g f = ground arith

  -- A sample that finds the machine in FAULT leaves it there, unless the vibration that it brings is
  -- past its limit.
  pub ind_sample-Latches :
      (inp : In F) (out : Out F) (g : Ind F)
      → is_fault g.st ≡ true
      → let g' = (ind_sample inp out g).2 in (is_fault g'.st ≡ true) ⊎ (shakes g' ≡ true)
  unfolding ind_sample ind_reply ind_measure add_hours
  ind_sample-Latches inp out g f = ground (arith, ind_step_state-Latches (ind_measure inp g) f)

  -- The reply of a sample raises its alarm exactly when the machine then stands in WARN or FAULT,
  -- whatever the reply held before.
  pub alarm-ind_sample :
      (inp : In F) (out : Out F) (g : Ind F)
      → let (e, out', g') = ind_sample inp out g in
        (e ≡ ok) × ((out'.alarm ≡ true) ↔ ((g'.st ≡ fault) ⊎ (g'.st ≡ warn)))
  unfolding ind_sample ind_reply ind_json is_fault is_warn
  alarm-ind_sample inp out g = ground arith

  -- The operating hours grow by a tick of `dt` seconds in RUN, where a `dt` that is not positive
  -- counts as one second, and stay as they are in every other state.
  pub hours-ind_hours :
      (inp : In F) (out : Out F) (g : Ind F)
      → (ind_hours inp out g).2.hours ≡ (
          if is_run g.st
          then fl.add g.hours
              (fl.div (if fl.gt (inp.f 0) (whole 0) then inp.f 0 else whole 1) (whole 3600))
          else g.hours)
  unfolding ind_hours ind_reply add_hours
  hours-ind_hours inp out g = ground arith

  pub ind_on_sample-AsksAck :
      (t v i p : F) (n : ℕ) → Preserves AsksAck (λ inp. ind_on_sample t v i p n)
  unfolding ind_on_sample
  ind_on_sample-AsksAck t v i p n inp out g safe = ind_sample-AsksAck _ out g safe
