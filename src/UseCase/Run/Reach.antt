-- ===== src/UseCase/Run/Reach.antt =====
-- The interleavings of commands and sensor samples that the static states of
-- components/iot_usecases go through: the commands of iot_uc_run and iot_uc_dispatch_command, and
-- the samples that components/iot_profiles deliver.
use esp32_iot_products.UseCase.Run.{
  run, World, on_ind, on_pm, on_ev, on_can, on_trk, on_agri, on_cold, on_robot, on_energy, on_water,
  json_input, run_json, dispatch_command,
}
use esp32_iot_products.CText.{Text, codes}
use esp32_iot_products.UseCase.Charger.{ev_on_sample}
use esp32_iot_products.UseCase.Water.{water_on_sample}
use esp32_iot_products.UseCase.Json.{json_str}
use esp32_iot_products.UseCase.Energy.{energy_on_adc}
use esp32_iot_products.UseCase.Predictive.{pm_on_sample}
use esp32_iot_products.UseCase.Robot.{robot_on_uart}
use esp32_iot_products.UseCase.Agri.{agri_on_sample}
use esp32_iot_products.UseCase.Industrial.{ind_on_sample}
use esp32_iot_products.UseCase.Types.{UcId, In, Out, zero_in}
use esp32_iot_products.UseCase.Automotive.{auto_on_frame}
use esp32_iot_products.UseCase.Catalog.{id_from_name}
use esp32_iot_products.UseCase.ColdChain.{cold_on_sample}
use esp32_iot_products.UseCase.Tracker.{trk_on_sample}
use esp32_iot_products.UseCase.Run.Safety.{run-WorldSafe}
use esp32_iot_products.Core.Err.{Err}
use esp32_iot_products.Core.Float.{Float}
use esp32_iot_products.Core.Types.{CommandMsg, text_of}
use esp32_iot_products.Prelude.Int.{ℤ}
use esp32_iot_products.Prelude.{Bool, [], ℕ, none, Option, some, arith, ◌≡◌, inl, inr, Option-cases}
use esp32_iot_products.UseCase.Automotive.Frames.{auto_on_frame-AllowListFixed}
use esp32_iot_products.UseCase.Water.Valve.{water_on_sample-TamperShut}
use esp32_iot_products.UseCase.Agri.Pump.{agri_on_sample-PumpSafe}
use esp32_iot_products.UseCase.Industrial.Faults.{ind_on_sample-AsksAck}
use esp32_iot_products.UseCase.Tracker.Bounds.{trk_on_sample-SleepBounded}
use esp32_iot_products.UseCase.Run.Lift.{
  WorldSafe, on_pm-WorldSafe, on_ev-WorldSafe, on_cold-WorldSafe, on_robot-WorldSafe,
  on_energy-WorldSafe, on_ind-WorldSafe, on_agri-WorldSafe, on_trk-WorldSafe, on_can-WorldSafe,
  on_water-WorldSafe,
}

module _ {F : Type 0} ⦃fl : Float F⦄ where
  -- One call of a public function of iot_uc.h, from any task.
  pub data Step (σ : World F) : World F → Type 0 where
    commanded :
        (id : UcId) (inp : Option (In F)) (out : Option (Out F)) → Step σ (run id inp out σ).2
    dispatched :
        (cmd : Option CommandMsg) (out : Option (Out F)) (r : Err × Option (Out F) × World F)
        → dispatch_command cmd out σ ≡ some r
        → Step σ r.2
    energy_sample :
        (mv : ℤ) (out : Out F) → Step σ (on_energy (λ inp. energy_on_adc mv) zero_in out σ).2
    ind_sampled :
        (temp vib current pressure : F) (pulses : ℕ) (out : Out F)
        → Step σ (on_ind (λ inp. ind_on_sample temp vib current pressure pulses) zero_in out σ).2
    pm_sampled :
        (accel : F) (out : Out F) → Step σ (on_pm (λ inp. pm_on_sample accel) zero_in out σ).2
    water_sampled :
        (pulses : ℕ) (tank_mv : ℤ) (out : Out F)
        → Step σ (on_water (λ inp. water_on_sample pulses tank_mv) zero_in out σ).2
    ev_sampled : (mv : ℤ) (out : Out F) → Step σ (on_ev (λ inp. ev_on_sample mv) zero_in out σ).2
    framed :
        (id speed rpm coolant : ℕ) (out : Out F)
        → Step σ (on_can (λ inp. auto_on_frame id speed rpm coolant) zero_in out σ).2
    trk_sampled :
        (rssi batt : ℤ) (moving : Bool) (out : Out F)
        → Step σ (on_trk (λ inp. trk_on_sample rssi batt moving) zero_in out σ).2
    agri_sampled :
        (moist : ℤ) (out : Out F) → Step σ (on_agri (λ inp. agri_on_sample moist) zero_in out σ).2
    cold_sampled :
        (t rh : F) (door : Bool) (out : Out F)
        → Step σ (on_cold (λ inp. cold_on_sample t rh door) zero_in out σ).2
    robot_heard : (n : ℕ) (out : Out F) → Step σ (on_robot (λ inp. robot_on_uart n) zero_in out σ).2

  -- Any sequence of such calls.
  pub data Reach (σ : World F) : World F → Type 0 where
    at_start : Reach σ σ
    and_then : (τ υ : World F) → Reach σ τ → Step τ υ → Reach σ υ

  pub run_json-WorldSafe :
      (json : Option Text) (len : ℕ) (out : Option (Out F)) (σ : World F)
      → WorldSafe σ
      → WorldSafe (run_json json len out σ).2
  unfolding run_json
  run_json-WorldSafe none len out σ v = v
  run_json-WorldSafe (some json) len none σ v = v
  run_json-WorldSafe (some json) len (some out) σ v =
      let (found, name) = json_str (some json) (codes "uc") [] 48 in
      ground (
        arith,
        v,
        run-WorldSafe (id_from_name (some name)) (some (json_input json len)) (some out) σ v,
      )

  pub dispatch_command-WorldSafe :
      (cmd : Option CommandMsg) (out : Option (Out F)) (σ : World F)
      (r : Err × Option (Out F) × World F)
      → dispatch_command cmd out σ ≡ some r
      → WorldSafe σ
      → WorldSafe r.2
  unfolding dispatch_command
  dispatch_command-WorldSafe none out σ r e v = ground (arith, v)
  dispatch_command-WorldSafe (some cmd) out σ r e v = elim (Option-cases (text_of cmd.payload)) [
    | inl t ↦ ground (arith, v, t)
    | inr (json, t) ↦ ground (arith, v, t, run_json-WorldSafe (some json) cmd.payload_len out σ v)
  ]

  -- Every call keeps the states safe.
  Step-WorldSafe : (σ τ : World F) → Step σ τ → WorldSafe σ → WorldSafe τ
  Step-WorldSafe σ τ (commanded id inp out) v = run-WorldSafe id inp out σ v
  Step-WorldSafe σ τ (dispatched cmd out r e) v = dispatch_command-WorldSafe cmd out σ r e v
  Step-WorldSafe σ τ (energy_sample mv out) v = on_energy-WorldSafe _ _ out σ v
  Step-WorldSafe σ τ (ind_sampled t x i p n out) v =
      on_ind-WorldSafe _ (ind_on_sample-AsksAck t x i p n) _ out σ v
  Step-WorldSafe σ τ (pm_sampled a out) v = on_pm-WorldSafe _ _ out σ v
  Step-WorldSafe σ τ (water_sampled n mv out) v =
      on_water-WorldSafe _ (water_on_sample-TamperShut n mv) _ out σ v
  Step-WorldSafe σ τ (ev_sampled mv out) v = on_ev-WorldSafe _ _ out σ v
  Step-WorldSafe σ τ (framed a b c d out) v =
      on_can-WorldSafe _ (auto_on_frame-AllowListFixed a b c d) _ out σ v
  Step-WorldSafe σ τ (trk_sampled r b m out) v =
      on_trk-WorldSafe _ (trk_on_sample-SleepBounded r b m) _ out σ v
  Step-WorldSafe σ τ (agri_sampled m out) v =
      on_agri-WorldSafe _ (agri_on_sample-PumpSafe m) _ out σ v
  Step-WorldSafe σ τ (cold_sampled t rh d out) v = on_cold-WorldSafe _ _ out σ v
  Step-WorldSafe σ τ (robot_heard n out) v = on_robot-WorldSafe _ _ out σ v

  -- Whatever sequence of commands, messages and samples follows a safe state, the state it leads to
  -- is safe: an industrial machine in FAULT asks for an acknowledgement; the valve of a water meter
  -- that was tampered with is shut; an inhibited pump is off, and a pump that is off has no duty once
  -- its driver is up; the tracker sleeps for 5 to 3600 seconds; the CAN allow-list is unchanged; and
  -- the stored sample period is 50 ms to a minute, and the cloud one of the four.
  pub Reach-WorldSafe : (σ τ : World F) → Reach σ τ → WorldSafe σ → WorldSafe τ
  Reach-WorldSafe σ τ at_start v = v
  Reach-WorldSafe σ ω (and_then τ υ r s) v = Step-WorldSafe τ υ s (Reach-WorldSafe σ τ r v)
