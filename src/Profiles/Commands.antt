-- ===== src/Profiles/Commands.antt =====
-- The command hooks of components/iot_profiles/src. A payload is read as a text; the outcome is none
-- where a reader runs past its end.
pub mod Legacy
pub mod Limits
pub mod EndToEnd
use esp32_iot_products.CText.{Text, codes, strstr, snprintf}
use esp32_iot_products.Provision.{contains}
use esp32_iot_products.Services.{handle_command}
use esp32_iot_products.Profiles.{
  Profile, profile_industrial, profile_predictive, profile_water, profile_ev, profile_automotive,
  profile_tracker, profile_agri, profile_coldchain, profile_robotics, profile_energy,
}
use esp32_iot_products.UseCase.Json.{has_key}
use esp32_iot_products.UseCase.Run.{World, run_json}
use esp32_iot_products.UseCase.Types.{Out}
use esp32_iot_products.Core.Err.{Err, invalid_arg}
use esp32_iot_products.Core.Float.{Float}
use esp32_iot_products.Core.Types.{json_small_len, CommandMsg, overwrite, text_of}
use esp32_iot_products.Prelude.{
  ℕ, not, ◌-◌, ◌&&◌, Option, none, ◌+◌, ◌==◌, length, ◌++◌, ◌%◌, drop, List, ◌^◌, if◌then◌else◌,
  some, replicate,
}

-- `c` as a text after `key` and `skip - strlen(key)` more bytes of the payload: the argument of
-- `atof(strstr(payload, key) + skip)`.
pub text_after : List ℕ → Text → Text → ℕ → Option Text
text_after payload json key skip = elim (strstr json key) [
  | none ↦ none
  | some p ↦ text_of (drop (length json - length p + skip) payload)
]

-- `memset(mapped.payload, 0, …)`, then the text and its length.
pub mapped : Text → CommandMsg → CommandMsg
mapped buf cmd = record cmd {
  payload = overwrite buf (length buf) (replicate json_small_len 0);
  payload_len = length buf % 2 ^ 16;
}

-- The seventh letter is the last one; the eighth byte is skipped.
abbrev pub legacy_skip : ℕ
legacy_skip = 8

module _ {F : Type 0} ⦃fl : Float F⦄ where
  -- The message that a number makes of an older one: a limit of the energy or industrial use cases.
  pub limit_message : Text → ℕ → F → CommandMsg → CommandMsg
  limit_message before size x cmd =
      mapped (snprintf size (before ++ (fl.fixed 1 x ++ codes "}"))) cmd

  -- The number is read, and the message that it makes is handled.
  handle_limit : Text → ℕ → Option Text → CommandMsg → Out F → World F → Option (Err × World F)
  handle_limit before size none cmd uco σ = none
  handle_limit before size (some digits) cmd uco σ =
      handle_command (some (limit_message before size (fl.atof digits) cmd)) uco σ

  -- `return iot_uc_run_json("…", len, &o);`
  run_fixed : Text → ℕ → Out F → World F → Option (Err × World F)
  run_fixed json len uco σ =
      let (e, out, σ') = run_json (some json) len (some uco) σ in some (e, σ')

  -- Every hook is given the text of the payload.
  -- What follows the test for a use case.
  alarm_text : Text → CommandMsg → Out F → World F → Option (Err × World F)
  alarm_text json cmd uco σ =
      if contains json (codes "alarm_w")
      then handle_limit (codes "{\"uc\":\"energy.set_limits\",\"over_w\":") 128
          (text_after cmd.payload json (codes "alarm_w") legacy_skip) cmd uco σ
      else handle_command (some cmd) uco σ

  energy_command_text : Text → CommandMsg → Out F → World F → Option (Err × World F)
  energy_command_text json cmd uco σ =
      if has_key (some json) (codes "uc")
      then handle_command (some cmd) uco σ
      else alarm_text json cmd uco σ

  industrial_command_text : Text → CommandMsg → Out F → World F → Option (Err × World F)
  industrial_command_text json cmd uco σ =
      if contains json (codes "t_alarm") && not (has_key (some json) (codes "uc"))
      then handle_limit (codes "{\"uc\":\"industrial.set_limits\",\"t_lim\":") 96
          (text_after cmd.payload json (codes "t_alarm") legacy_skip) cmd uco σ
      else handle_command (some cmd) uco σ

  -- What follows the tests for a use case and for `close`.
  open_text : Text → CommandMsg → Out F → World F → Option (Err × World F)
  open_text json cmd uco σ =
      if contains json (codes "open")
      then run_fixed (codes "{\"uc\":\"water.valve_open\"}") 27 uco σ
      else handle_command (some cmd) uco σ

  valve_text : Text → CommandMsg → Out F → World F → Option (Err × World F)
  valve_text json cmd uco σ =
      if contains json (codes "close")
      then run_fixed (codes "{\"uc\":\"water.valve_close\"}") 28 uco σ
      else open_text json cmd uco σ

  water_command_text : Text → CommandMsg → Out F → World F → Option (Err × World F)
  water_command_text json cmd uco σ =
      if has_key (some json) (codes "uc")
      then handle_command (some cmd) uco σ
      else valve_text json cmd uco σ

  ev_command_text : Text → CommandMsg → Out F → World F → Option (Err × World F)
  ev_command_text json cmd uco σ =
      if contains json (codes "contactor")
      then run_fixed (codes "{\"uc\":\"ev.reject_contactor\"}") 32 uco σ
      else handle_command (some cmd) uco σ

  automotive_command_text : Text → CommandMsg → Out F → World F → Option (Err × World F)
  automotive_command_text json cmd uco σ =
      if contains json (codes "can_tx")
      then run_fixed (codes "{\"uc\":\"auto.reject_tx\"}") 26 uco σ
      else handle_command (some cmd) uco σ

  robotics_command_text : Text → CommandMsg → Out F → World F → Option (Err × World F)
  robotics_command_text json cmd uco σ =
      if contains json (codes "move")
      then run_fixed (codes "{\"uc\":\"robot.reject_motion\"}") 32 uco σ
      else handle_command (some cmd) uco σ

  pub on_text :
      (Text → CommandMsg → Out F → World F → Option (Err × World F))
      → CommandMsg
      → Out F
      → World F
      → Option (Err × World F)
  on_text hook cmd uco σ = elim (text_of cmd.payload) [
    | none ↦ none
    | some json ↦ hook json cmd uco σ
  ]

  -- `iot_profile_energy_cmd` looks at the length first.
  energy_cmd : CommandMsg → Out F → World F → Option (Err × World F)
  energy_cmd cmd uco σ =
      if cmd.payload_len == 0 then some (invalid_arg, σ) else on_text energy_command_text cmd uco σ

  -- `s_cmd`, as `iot_profile_init` sets it; the message is not NULL.
  pub cmd_hook : Profile → CommandMsg → Out F → World F → Option (Err × World F)
  cmd_hook profile_industrial = on_text industrial_command_text
  cmd_hook profile_predictive = λ cmd. handle_command (some cmd)
  cmd_hook profile_water = on_text water_command_text
  cmd_hook profile_ev = on_text ev_command_text
  cmd_hook profile_automotive = on_text automotive_command_text
  cmd_hook profile_tracker = λ cmd. handle_command (some cmd)
  cmd_hook profile_agri = λ cmd. handle_command (some cmd)
  cmd_hook profile_coldchain = λ cmd. handle_command (some cmd)
  cmd_hook profile_robotics = on_text robotics_command_text
  cmd_hook profile_energy = energy_cmd
