-- ===== src/Profiles/Commands/EndToEnd.antt =====
-- A command from the broker to the machine: components/iot_mqtt/src/iot_mqtt.c, the command task of
-- components/iot_rtos/src/iot_tasks.c, the command hook of components/iot_profiles/src, the command
-- bus of components/iot_services/src, and the use cases.
use esp32_iot_products.CText.{Text, codes}
use esp32_iot_products.Provision.{contains}
use esp32_iot_products.Mqtt.{command_of_data}
use esp32_iot_products.Services.{handle_command}
use esp32_iot_products.Profiles.{
  Profile, profile_industrial, profile_water, profile_ev, profile_automotive, profile_robotics,
  profile_energy,
}
use esp32_iot_products.UseCase.Json.{has_key}
use esp32_iot_products.UseCase.Run.{World, fn_of, call, json_input}
use esp32_iot_products.UseCase.Types.{UcId, Out, zero_out}
use esp32_iot_products.UseCase.Run.Names.{command_text}
use esp32_iot_products.Services.Payload.{NoNul, command_of_data-short, text_of-command_of_data}
use esp32_iot_products.Services.Bus.{
  has_key-command_text, length-command_text, handle_command-command_text,
}
use esp32_iot_products.Core.Err.{Err}
use esp32_iot_products.Core.Float.{Float}
use esp32_iot_products.Core.Types.{json_small_len, CommandMsg, text_of}
use esp32_iot_products.Mqtt.Client.{Client, data_event, mqtt_event}
use esp32_iot_products.Profiles.Commands.{
  cmd_hook, water_command_text, energy_command_text, industrial_command_text, energy_cmd,
}
use esp32_iot_products.Profiles.Commands.Legacy.{on_text-known}
use esp32_iot_products.Rtos.Commands.{
  command_len, Desk, DeskAct, arrives, looks, handles, run_hook, desk_acts,
}
use esp32_iot_products.Rtos.Queue.Bounded.{BoundedQueue}
use esp32_iot_products.Rtos.Commands.Order.{desk_acts-one}
use esp32_iot_products.Prelude.{
  List, [], arith, ap, ◌<◌, some, inr, inl, ◌==◌, Bool, ◌≡◌, ◌++◌, Bool-cases, ◌∙◌, ◌∷◌, refl,
  length, none, true, false, Option,
}

-- The profiles whose own words are looked for behind the name of a use case only.
unfoldable pub keyed_first : Profile → Bool
keyed_first profile_robotics = false
keyed_first profile_ev = false
keyed_first profile_automotive = false
keyed_first _ = true

-- The command that the handler of an event puts on the queue.
pub arrivals : Option CommandMsg → List DeskAct
arrivals none = []
arrivals (some cmd) = arrives cmd ∷ []

module _ {F : Type 0} ⦃fl : Float F⦄ where
  -- The hook on the states; nothing is known of them after a reader ran past its end.
  pub device_hook : Profile → Out F → CommandMsg → Option (World F) → Option (World F)
  device_hook p uco cmd none = none
  device_hook p uco cmd (some σ) = elim (cmd_hook p cmd uco σ) [ none ↦ none | some r ↦ some (r.1) ]

  cmd_hook-keyed :
      (p : Profile) (json : Text) (cmd : CommandMsg) (uco : Out F) (σ : World F)
      → keyed_first p ≡ true
      → text_of cmd.payload ≡ some json
      → has_key (some json) (codes "uc") ≡ true
      → 0 < cmd.payload_len
      → cmd_hook p cmd uco σ ≡ handle_command (some cmd) uco σ
  unfolding keyed_first cmd_hook energy_cmd energy_command_text water_command_text
      industrial_command_text
  cmd_hook-keyed profile_robotics json cmd uco σ k t key some_bytes = ground (arith, k)
  cmd_hook-keyed profile_ev json cmd uco σ k t key some_bytes = ground (arith, k)
  cmd_hook-keyed profile_automotive json cmd uco σ k t key some_bytes = ground (arith, k)
  cmd_hook-keyed profile_energy json cmd uco σ k t key some_bytes =
      let nonempty : (cmd.payload_len == 0) ≡ false = ground (arith, some_bytes) in
      rw (nonempty, on_text-known energy_command_text json cmd uco σ t) (rw key refl)
  cmd_hook-keyed profile_water json cmd uco σ k t key some_bytes =
      on_text-known water_command_text json cmd uco σ t ∙ rw key refl
  cmd_hook-keyed profile_industrial json cmd uco σ k t key some_bytes =
      on_text-known industrial_command_text json cmd uco σ t
      ∙ elim (Bool-cases (contains json (codes "t_alarm"))) [
        | inl e ↦ rw (e, key) refl
        | inr e ↦ rw e refl
      ]
  cmd_hook-keyed _ json cmd uco σ k t key some_bytes = refl

  device_hook-known :
      (p : Profile) (uco : Out F) (cmd : CommandMsg) (σ : World F) (r : Err × World F)
      → cmd_hook p cmd uco σ ≡ some r
      → device_hook p uco cmd (some σ) ≡ some (r.1)
  unfolding device_hook
  device_hook-known p uco cmd σ r e =
      ap (λ o. elim o as (λ x. Option (World F)) [ none ↦ none | some z ↦ some (z.1) ]) e

  -- A message that starts with the name of a use case, that has no NUL and is shorter than a payload,
  -- and that arrives from the broker while no command waits and no shutdown has been requested, is run
  -- when the command task has next looked at the flag and waited: the states become those that the use case's handler makes of
  -- them, with the input that the text gives. The profile is any but the three that look for words of
  -- their own first.
  pub mqtt_event-runs :
      (Q : BoundedQueue CommandMsg command_len) (p : Profile) (id : UcId) (rest : Text)
      (uco : Out F) (σ : World F) (c : Client) (d : Desk (Option (World F)) Q.Queue)
      → let json = command_text id rest in
        keyed_first p ≡ true
        → NoNul json
        → length json < json_small_len
        → Q.IsSane d.command_q
        → Q.items d.command_q ≡ []
        → d.shutdown ≡ false
        → d.device ≡ some σ
        → let sent = (mqtt_event (data_event (some json) (length json)) c).0 in
          let r =
            call
              (fn_of id)
              id
              (json_input json (length json))
              zero_out
              (record σ { init = true }) in
          (desk_acts Q
            (some (device_hook p uco))
            (arrivals sent ++ (looks ∷ handles ∷ []))
            d).1.device
          ≡ some (r.2)
  unfolding mqtt_event arrivals run_hook
  mqtt_event-runs Q p id rest uco σ c d k h short v empty on dev =
      let json = command_text id rest in
      let cmd = command_of_data (some json) (length json) in
      let sized : cmd.payload_len ≡ length json =
        ap (λ (m : CommandMsg). m.payload_len) (command_of_data-short json short) in
      desk_acts-one Q (some (device_hook p uco)) cmd d v empty on
      ∙ ap (device_hook p uco cmd) dev
      ∙ device_hook-known p uco cmd σ _ (
          cmd_hook-keyed p json cmd uco σ k (text_of-command_of_data json h short)
            (has_key-command_text id rest) (rw sized (length-command_text id rest))
          ∙ handle_command-command_text id rest uco σ h short)
