-- ===== src/Services/Bus.antt =====
-- The command bus of components/iot_services/src/iot_services.c, from a message to the use cases.
use esp32_iot_products.CText.{Text, codes, starts_with, strstr, snprintf}
use esp32_iot_products.Security.{validate_command}
use esp32_iot_products.Mqtt.{command_of_data}
use esp32_iot_products.Services.{
  handle_command, with_plat, reject, apply_other, is_config, update_url, apply_update,
  apply_command, outcome, after_check,
}
use esp32_iot_products.UseCase.Run.{World, fn_of, call, json_input, dispatch_command, run_json}
use esp32_iot_products.UseCase.Types.{UcId, Out, zero_out, In, Handler}
use esp32_iot_products.UseCase.Run.Names.{command_text, run_json-command_text}
use esp32_iot_products.Services.Payload.{NoNul, text_of-command_of_data, command_of_data-short}
use esp32_iot_products.Core.Err.{Err, ok, invalid_arg}
use esp32_iot_products.Core.Float.{Float}
use esp32_iot_products.Core.Types.{json_small_len, CommandMsg, text_of}
use esp32_iot_products.Prelude.{
  ◌≡◌, some, length, none, true, ◌≢◌, Option, ◌<◌, arith, inr, inl, Bool-cases, Option-cases, subst,
  ap, ◌∙◌, refl,
}
use esp32_iot_products.Diag.{diag_num, count, diag_event}
use esp32_iot_products.UseCase.Platform.{Plat, provision_dev}
use esp32_iot_products.UseCase.Json.{has_key, pattern_of}
use esp32_iot_products.UseCase.Run.Reach.{dispatch_command-WorldSafe}
use esp32_iot_products.UseCase.Platform.Settings.{PlatSane, provision_apply_json-SettingsSane}
use esp32_iot_products.UseCase.Run.Lift.{WorldSafe}

pub has_key-command_text :
    (id : UcId) (rest : Text) → has_key (some (command_text id rest)) (codes "uc") ≡ true
unfolding has_key pattern_of snprintf strstr starts_with codes
has_key-command_text id rest = refl

validate_command-command_text :
    (id : UcId) (rest : Text)
    → let json = command_text id rest in
      length json < json_small_len
      → validate_command (some (command_of_data (some json) (length json))) ≡ ok
unfolding validate_command codes
validate_command-command_text id rest short =
    rw (command_of_data-short (command_text id rest) short) (ground arith)

pub length-command_text : (id : UcId) (rest : Text) → 0 < length (command_text id rest)
unfolding codes
length-command_text id rest = ground arith

module _ {F : Type 0} ⦃fl : Float F⦄ where
  -- A message that the security component turns down changes nothing but the last diagnostic event,
  -- which becomes that of a rejected command.
  pub handle_command-rejected :
      (cmd : Option CommandMsg) (uco : Out F) (σ : World F) (e : Err)
      → validate_command cmd ≡ e
      → e ≢ ok
      → let p = σ.plat in
        handle_command cmd uco σ
        ≡ some (e, record σ { plat = record p { diag = record (p.diag) { last = 0x100b } } })
  unfolding handle_command after_check reject with_plat diag_event count diag_num validate_command
  handle_command-rejected none uco σ e v bad = ground (arith, v)
  handle_command-rejected (some cmd) uco σ e v bad = ground (arith, v, bad)

  with_plat-WorldSafe :
      (p : Plat) (σ : World F) → PlatSane p → WorldSafe σ → WorldSafe (with_plat p σ)
  unfolding with_plat
  with_plat-WorldSafe p σ s v = record {
    ind_safe = v.ind_safe;
    water_safe = v.water_safe;
    agri_safe = v.agri_safe;
    trk_safe = v.trk_safe;
    can_safe = v.can_safe;
    plat_safe = s;
  }

  reject-WorldSafe : (σ : World F) → WorldSafe σ → WorldSafe (reject σ)
  unfolding reject
  reject-WorldSafe σ v = with_plat-WorldSafe _ σ v.plat_safe v

  rejected-WorldSafe :
      (e : Err) (σ : World F) (r : Err × World F)
      → some (e, reject σ) ≡ some r
      → WorldSafe σ
      → WorldSafe r.1
  rejected-WorldSafe e σ r h v =
      let same : reject σ ≡ r.1 = ground (arith, h) in subst WorldSafe same (reject-WorldSafe σ v)

  update-WorldSafe :
      (url : Option Text) (σ : World F) → WorldSafe σ → WorldSafe (apply_update url σ).1
  unfolding apply_update
  update-WorldSafe none σ v = v
  update-WorldSafe (some url) σ v = with_plat-WorldSafe _ σ v.plat_safe v

  apply_other-WorldSafe :
      (cmd : CommandMsg) (json : Text) (σ : World F)
      → WorldSafe σ
      → WorldSafe (apply_other cmd json σ).1
  unfolding apply_other provision_dev
  apply_other-WorldSafe cmd json σ v = elim (Bool-cases (is_config cmd)) [
    | inl c ↦
        let p =
          provision_apply_json-SettingsSane (some json) cmd.payload_len (provision_dev σ.plat)
            v.plat_safe in
        rw c (with_plat-WorldSafe _ σ p v)
    | inr c ↦ rw c (update-WorldSafe (update_url json) σ v)
  ]

  outcome-WorldSafe :
      (cmd : Option CommandMsg) (out : Option (Out F)) (σ : World F) (r : Err × World F)
      → outcome (dispatch_command cmd out σ) ≡ some r
      → WorldSafe σ
      → WorldSafe r.1
  unfolding outcome
  outcome-WorldSafe cmd out σ r e v = elim (Option-cases (dispatch_command cmd out σ)) [
    | inl n ↦ ground (arith, n, e)
    | inr (s, d) ↦
        let same : s.2 ≡ r.1 = ground (arith, d, e) in
        subst WorldSafe same (dispatch_command-WorldSafe cmd out σ s d v)
  ]

  apply_command-WorldSafe :
      (cmd : CommandMsg) (uco : Out F) (σ : World F) (r : Err × World F)
      → apply_command cmd uco σ ≡ some r
      → WorldSafe σ
      → WorldSafe r.1
  unfolding apply_command
  apply_command-WorldSafe cmd uco σ r e v = elim (Option-cases (text_of cmd.payload)) [
    | inl t ↦ ground (arith, t, e)
    | inr (json, t) ↦ elim (Bool-cases (has_key (some json) (codes "uc"))) [
      | inl k ↦ outcome-WorldSafe (some cmd) (some uco) σ r (ground (arith, t, k, e)) v
      | inr k ↦
          let done : apply_other cmd json σ ≡ r = ground (arith, t, k, e) in
          subst (λ x. WorldSafe x.1) done (apply_other-WorldSafe cmd json σ v)
    ]
  ]

  after_check-WorldSafe :
      (w : Err) (cmd : CommandMsg) (uco : Out F) (σ : World F) (r : Err × World F)
      → after_check w cmd uco σ ≡ some r
      → WorldSafe σ
      → WorldSafe r.1
  unfolding after_check
  after_check-WorldSafe ok cmd uco σ r e v = apply_command-WorldSafe cmd uco σ r e v
  after_check-WorldSafe w cmd uco σ r e v = rejected-WorldSafe w σ r e v

  pub handle_command-keeps :
      (cmd : Option CommandMsg) (uco : Out F) (σ : World F) (r : Err × World F)
      → handle_command cmd uco σ ≡ some r
      → WorldSafe σ
      → WorldSafe r.1
  unfolding handle_command
  handle_command-keeps none uco σ r e v = rejected-WorldSafe invalid_arg σ r (ground (arith, e)) v
  handle_command-keeps (some cmd) uco σ r e v =
      after_check-WorldSafe (validate_command (some cmd)) cmd uco σ r e v

  handle_command-returns :
      (cmd : CommandMsg) (json : Text) (uco : Out F) (σ : World F)
      → text_of cmd.payload ≡ some json
      → handle_command (some cmd) uco σ ≢ none
  unfolding handle_command after_check apply_command outcome dispatch_command
  handle_command-returns cmd json uco σ t e = ground (arith, t, e)

  -- Every message whose payload holds a NUL is handled, be it rejected, a command, a commissioning
  -- payload or an update, and from a safe state it leads to a safe one.
  pub handle_command-WorldSafe :
      (cmd : CommandMsg) (json : Text) (uco : Out F) (σ : World F)
      → text_of cmd.payload ≡ some json
      → WorldSafe σ
      → (r : Err × World F) × (handle_command (some cmd) uco σ ≡ some r) × WorldSafe r.1
  handle_command-WorldSafe cmd json uco σ t v =
      elim (Option-cases (handle_command (some cmd) uco σ)) [
        | inl n ↦ absurd (handle_command-returns cmd json uco σ t n)
        | inr (r, e) ↦ (r, e, handle_command-keeps (some cmd) uco σ r e v)
      ]

  handle_command-keyed :
      (cmd : CommandMsg) (json : Text) (uco : Out F) (σ : World F)
      → validate_command (some cmd) ≡ ok
      → 0 < cmd.payload_len
      → text_of cmd.payload ≡ some json
      → has_key (some json) (codes "uc") ≡ true
      → handle_command (some cmd) uco σ
        ≡ outcome (some (run_json (some json) cmd.payload_len (some uco) σ))
  unfolding handle_command after_check apply_command dispatch_command
  handle_command-keyed cmd json uco σ checked long text key =
      ground (arith, checked, long, text, key)

  outcome-call :
      (fn : Option (Handler F (World F))) (id : UcId) (inp : In F) (out : Out F) (σ : World F)
      → let r = call fn id inp out σ in outcome (some r) ≡ some (r.0, r.2)
  unfolding outcome
  outcome-call fn id inp out σ = refl

  -- A message of MQTT whose text starts with the name of a use case, and is shorter than the
  -- payload, runs that use case, with the input that the text gives.
  pub handle_command-command_text :
      (id : UcId) (rest : Text) (uco : Out F) (σ : World F)
      → let json = command_text id rest in
        NoNul json
        → length json < json_small_len
        → let r =
            call
              (fn_of id)
              id
              (json_input json (length json))
              zero_out
              (record σ { init = true }) in
          handle_command (some (command_of_data (some json) (length json))) uco σ ≡ some (r.0, r.2)
  handle_command-command_text id rest uco σ h short =
      let json = command_text id rest in
      let cmd = command_of_data (some json) (length json) in
      let sized : cmd.payload_len ≡ length json =
        ap (λ (c : CommandMsg). c.payload_len) (command_of_data-short json short) in
      handle_command-keyed cmd json uco σ (validate_command-command_text id rest short)
        (rw sized (length-command_text id rest)) (text_of-command_of_data json h short)
        (has_key-command_text id rest)
      ∙ rw (sized, run_json-command_text id rest (length json) uco σ (length-command_text id rest))
          (outcome-call _ _ _ _ _)
