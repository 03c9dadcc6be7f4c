-- ===== src/Profiles/Commands/Legacy.antt =====
-- The messages without a use case that the profiles of components/iot_profiles understand.
use esp32_iot_products.CText.{Text, codes}
use esp32_iot_products.Provision.{contains}
use esp32_iot_products.Profiles.{
  Profile, profile_water, profile_ev, profile_automotive, profile_robotics,
}
use esp32_iot_products.UseCase.Json.{has_key}
use esp32_iot_products.UseCase.Run.{World, fn_of, call, json_input}
use esp32_iot_products.UseCase.Types.{UcId, Out, zero_out, uc_num}
use esp32_iot_products.UseCase.Run.Names.{command_text, run_json-command_text}
use esp32_iot_products.Core.Err.{Err, denied}
use esp32_iot_products.Core.Float.{Float}
use esp32_iot_products.Prelude.{
  refl, ◌≡◌, Option, none, ◌<◌, true, if◌then◌else◌, ℕ, arith, some, ◌∙◌, Bool, false, ap,
}
use esp32_iot_products.Profiles.Commands.{
  run_fixed, cmd_hook, ev_command_text, water_command_text, open_text, valve_text,
  automotive_command_text, robotics_command_text, on_text,
}
use esp32_iot_products.UseCase.Catalog.{uc_name, s_tab, find_row, find_id}
use mathlib.Core.Path.{Path, ap₂}
use esp32_iot_products.UseCase.Run.Rejects.{refuses, call-refuses}
use esp32_iot_products.Core.Types.{CommandMsg, text_of}

-- The use case that a profile reads into a text, by its own words.
unfoldable pub legacy_uc : Profile → Text → Option UcId
legacy_uc profile_robotics json =
    if contains json (codes "move") then some UcId.robot_reject_motion else none
legacy_uc profile_ev json =
    if contains json (codes "contactor") then some UcId.ev_reject_contactor else none
legacy_uc profile_automotive json =
    if contains json (codes "can_tx") then some UcId.auto_reject_tx else none
legacy_uc profile_water json =
    if has_key (some json) (codes "uc")
    then none
    else (if contains json (codes "close")
        then some UcId.water_valve_close
        else (if contains json (codes "open") then some UcId.water_valve_open else none))
legacy_uc _ json = none

-- The length that is passed on with the text.
pub legacy_len : UcId → ℕ
legacy_len UcId.water_valve_close = 28
legacy_len UcId.water_valve_open = 27
legacy_len UcId.auto_reject_tx = 26
legacy_len _ = 32

literal-robotics :
    codes "{\"uc\":\"robot.reject_motion\"}" ≡ command_text UcId.robot_reject_motion (codes "}")
unfolding codes uc_name find_id find_row s_tab uc_num
literal-robotics = refl

literal-contactor :
    codes "{\"uc\":\"ev.reject_contactor\"}" ≡ command_text UcId.ev_reject_contactor (codes "}")
unfolding codes uc_name find_id find_row s_tab uc_num
literal-contactor = refl

literal-can_tx : codes "{\"uc\":\"auto.reject_tx\"}" ≡ command_text UcId.auto_reject_tx (codes "}")
unfolding codes uc_name find_id find_row s_tab uc_num
literal-can_tx = refl

literal-close :
    codes "{\"uc\":\"water.valve_close\"}" ≡ command_text UcId.water_valve_close (codes "}")
unfolding codes uc_name find_id find_row s_tab uc_num
literal-close = refl

literal-open :
    codes "{\"uc\":\"water.valve_open\"}" ≡ command_text UcId.water_valve_open (codes "}")
unfolding codes uc_name find_id find_row s_tab uc_num
literal-open = refl

module _ {F : Type 0} ⦃fl : Float F⦄ where
  -- A use case that runs with no input of its own.
  pub bare_call : UcId → World F → Err × Option (Out F) × World F
  bare_call id σ =
      call (fn_of id) id (json_input (command_text id (codes "}")) (legacy_len id)) zero_out
        (record σ { init = true })

  run_fixed-bare_call :
      (id : UcId) (len : ℕ) (uco : Out F) (σ : World F)
      → len ≡ legacy_len id
      → 0 < len
      → run_fixed (command_text id (codes "}")) len uco σ
        ≡ some ((bare_call id σ).0, (bare_call id σ).2)
  unfolding run_fixed bare_call
  run_fixed-bare_call id len uco σ e h =
      rw (run_json-command_text id (codes "}") len uco σ h, e) refl

  -- What a hook does with a text that it knows.
  abbrev ran_bare : UcId → World F → Option (Err × World F)
  ran_bare id σ = some ((bare_call id σ).0, (bare_call id σ).2)

  -- A test that decides both on the use case and on the outcome.
  decides :
      (b : Bool) (known id : UcId) (rest : Option UcId) (σ : World F) (x y : Option (Err × World F))
      → x ≡ ran_bare known σ
      → (rest ≡ some id → y ≡ ran_bare id σ)
      → (if b then some known else rest) ≡ some id
      → (if b then x else y) ≡ ran_bare id σ
  decides true known id rest σ x y now later h =
      now ∙ ap (λ o. ran_bare (elim o [ none ↦ known | some i ↦ i ]) σ) h
  decides false known id rest σ x y now later h = later h

  nothing :
      (id : UcId) (o : Option (Err × World F)) (σ : World F)
      → Path (Option UcId) none (some id)
      → o ≡ ran_bare id σ
  nothing id o σ h = ground (arith, h)

  -- A literal of the source, run with its length.
  literal_run :
      (id : UcId) (literal : Text) (len : ℕ) (uco : Out F) (σ : World F)
      → literal ≡ command_text id (codes "}")
      → len ≡ legacy_len id
      → 0 < len
      → run_fixed literal len uco σ ≡ ran_bare id σ
  literal_run id literal len uco σ same e h = rw same (run_fixed-bare_call id len uco σ e h)

  open_text-legacy :
      (json : Text) (cmd : CommandMsg) (uco : Out F) (σ : World F) (id : UcId)
      → (if contains json (codes "open") then some UcId.water_valve_open else none) ≡ some id
      → open_text json cmd uco σ ≡ ran_bare id σ
  unfolding open_text legacy_len
  open_text-legacy json cmd uco σ id h =
      decides (contains json (codes "open")) UcId.water_valve_open id none σ _ _
        (literal_run UcId.water_valve_open _ 27 uco σ literal-open refl (ground arith))
        (nothing id _ σ) h

  valve_text-legacy :
      (json : Text) (cmd : CommandMsg) (uco : Out F) (σ : World F) (id : UcId)
      → (if contains json (codes "close")
          then some UcId.water_valve_close
          else (if contains json (codes "open") then some UcId.water_valve_open else none))
        ≡ some id
      → valve_text json cmd uco σ ≡ ran_bare id σ
  unfolding valve_text legacy_len
  valve_text-legacy json cmd uco σ id h =
      decides (contains json (codes "close")) UcId.water_valve_close id _ σ _ _
        (literal_run UcId.water_valve_close _ 28 uco σ literal-close refl (ground arith))
        (open_text-legacy json cmd uco σ id) h

  keyed_test :
      (b : Bool) (id : UcId) (rest : Option UcId) (σ : World F) (x y : Option (Err × World F))
      → (rest ≡ some id → y ≡ ran_bare id σ)
      → (if b then none else rest) ≡ some id
      → (if b then x else y) ≡ ran_bare id σ
  keyed_test true id rest σ x y later h = nothing id x σ h
  keyed_test false id rest σ x y later h = later h

  -- `text_of` of the payload, once it is known.
  pub on_text-known :
      (hook : Text → CommandMsg → Out F → World F → Option (Err × World F)) (json : Text)
      (cmd : CommandMsg) (uco : Out F) (σ : World F)
      → text_of cmd.payload ≡ some json
      → on_text hook cmd uco σ ≡ hook json cmd uco σ
  unfolding on_text
  on_text-known hook json cmd uco σ t =
      ap (λ o. elim o as (λ x. Option (Err × World F)) [ none ↦ none | some j ↦ hook j cmd uco σ ])
        t

  -- A message that a profile knows by its own words runs the use case that these words stand for, with
  -- no input: the valve of the water meter opens and closes, and motion, the contactor and frames for
  -- the bus are turned down.
  pub cmd_hook-legacy :
      (p : Profile) (json : Text) (cmd : CommandMsg) (uco : Out F) (σ : World F) (id : UcId)
      → text_of cmd.payload ≡ some json
      → legacy_uc p json ≡ some id
      → cmd_hook p cmd uco σ ≡ some ((bare_call id σ).0, (bare_call id σ).2)
  unfolding cmd_hook legacy_uc legacy_len water_command_text ev_command_text automotive_command_text
      robotics_command_text
  cmd_hook-legacy profile_robotics json cmd uco σ id t h =
      on_text-known robotics_command_text json cmd uco σ t
      ∙ decides (contains json (codes "move")) UcId.robot_reject_motion id none σ _ _
          (literal_run UcId.robot_reject_motion _ 32 uco σ literal-robotics refl (ground arith))
          (nothing id _ σ) h
  cmd_hook-legacy profile_ev json cmd uco σ id t h =
      on_text-known ev_command_text json cmd uco σ t
      ∙ decides (contains json (codes "contactor")) UcId.ev_reject_contactor id none σ _ _
          (literal_run UcId.ev_reject_contactor _ 32 uco σ literal-contactor refl (ground arith))
          (nothing id _ σ) h
  cmd_hook-legacy profile_automotive json cmd uco σ id t h =
      on_text-known automotive_command_text json cmd uco σ t
      ∙ decides (contains json (codes "can_tx")) UcId.auto_reject_tx id none σ _ _
          (literal_run UcId.auto_reject_tx _ 26 uco σ literal-can_tx refl (ground arith))
          (nothing id _ σ) h
  cmd_hook-legacy profile_water json cmd uco σ id t h =
      on_text-known water_command_text json cmd uco σ t
      ∙ keyed_test (has_key (some json) (codes "uc")) id _ σ _ _
          (valve_text-legacy json cmd uco σ id) h
  cmd_hook-legacy _ json cmd uco σ id t h = nothing id _ σ h

  -- A message with which a profile would be made to move the robot, to switch the contactor or to send
  -- on the bus is denied, and no state changes but the dispatcher's mark that it has been set up.
  pub cmd_hook-refuses :
      (p : Profile) (json : Text) (cmd : CommandMsg) (uco : Out F) (σ : World F) (id : UcId)
      → text_of cmd.payload ≡ some json
      → legacy_uc p json ≡ some id
      → refuses id ≡ true
      → cmd_hook p cmd uco σ ≡ some (denied, record σ { init = true })
  unfolding bare_call
  cmd_hook-refuses p json cmd uco σ id t h bad =
      let inp = json_input (command_text id (codes "}")) (legacy_len id) in
      let (e, same) = call-refuses id inp zero_out (record σ { init = true }) bad in
      cmd_hook-legacy p json cmd uco σ id t h ∙ ap some (ap₂ (λ c w. (c, w)) e same)
