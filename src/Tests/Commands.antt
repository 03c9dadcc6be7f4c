-- ===== src/Tests/Commands.antt =====
-- Commands of tests/host/test_runner.c, and the properties of the dispatcher at such commands.
use esp32_iot_products.UseCase.Run.{run, World, fn_of, call, json_input, run_json}
use esp32_iot_products.Tests.{start_world}
use esp32_iot_products.CText.{Text, codes}
use esp32_iot_products.Mqtt.{command_of_data}
use esp32_iot_products.Services.{handle_command}
use esp32_iot_products.UseCase.Types.{UcId, zero_out, uc_num}
use esp32_iot_products.UseCase.Catalog.{uc_name, id_from_name, s_tab, find_id}
use esp32_iot_products.UseCase.Run.Names.{command_text, run_json-command_text}
use esp32_iot_products.UseCase.Run.Reach.{commanded, at_start, and_then, Reach-WorldSafe}
use esp32_iot_products.UseCase.Catalog.Laws.{id_from_name-uc_name}
use esp32_iot_products.Services.Payload.{NoNul, no_nul, NoNul-no_nul}
use esp32_iot_products.Services.Bus.{handle_command-command_text}
use esp32_iot_products.Core.Types.{CommandMsg, json_small_len}
use esp32_iot_products.Core.Float.Milli.{Milli, milli_float}
use esp32_iot_products.Prelude.{length, ◌≡◌, none, true, refl, some, arith, ◌<◌}
use esp32_iot_products.UseCase.Water.{water_init}
use esp32_iot_products.UseCase.Agri.{agri_init}
use esp32_iot_products.UseCase.Industrial.{is_fault, ind_init}
use esp32_iot_products.UseCase.Automotive.{can_init}
use esp32_iot_products.UseCase.Tracker.{trk_init}
use esp32_iot_products.Core.Config.{defaults}
use esp32_iot_products.UseCase.Run.Lift.{WorldSafe}

abbrev pub measure : Text
measure = codes ",\"v\":230,\"i\":1.0}"

abbrev pub measure_json : Text
measure_json = command_text UcId.energy_measure measure

pub start_world-WorldSafe : WorldSafe start_world
unfolding ind_init is_fault water_init agri_init trk_init can_init defaults
start_world-WorldSafe = record {
  ind_safe = record { asked = λ h. ground (arith, h) };
  water_safe = record { shut = λ h. ground (arith, h) };
  agri_safe = record { off = λ h. refl; still = λ h k. refl };
  trk_safe = record { least = ground arith; most = ground arith };
  can_safe = record { lowest = refl; highest = refl };
  plat_safe = record {
    period_least = ground arith;
    period_most = ground arith;
    cloud_least = ground arith;
    cloud_most = ground arith;
  };
}

abbrev ran : World Milli
ran = (run UcId.water_tamper none (some zero_out) start_world).2

Reach-WorldSafe_example : WorldSafe ran
Reach-WorldSafe_example =
    Reach-WorldSafe start_world ran
      (and_then start_world ran at_start (commanded UcId.water_tamper none (some zero_out)))
      start_world-WorldSafe

run_json-command_text_example :
    run_json (some measure_json) 40 (some zero_out) start_world
    ≡ call
        (fn_of UcId.energy_measure)
        UcId.energy_measure
        (json_input measure_json 40)
        zero_out
        (record start_world { init = true })
run_json-command_text_example =
    run_json-command_text UcId.energy_measure measure 40 zero_out start_world (ground arith)

id_from_name-uc_name_example : id_from_name (some (uc_name UcId.ev_start_req)) ≡ UcId.ev_start_req
id_from_name-uc_name_example = id_from_name-uc_name UcId.ev_start_req

abbrev mqtt_message : CommandMsg
mqtt_message = command_of_data (some measure_json) (length measure_json)

pub NoNul-measure_json : NoNul measure_json
unfolding no_nul codes uc_name find_id s_tab uc_num
NoNul-measure_json = NoNul-no_nul measure_json refl

pub measure_json-short : length measure_json < json_small_len
unfolding codes uc_name find_id s_tab uc_num
measure_json-short = ground arith

handle_command-command_text_example :
    let r =
      call
        (fn_of UcId.energy_measure)
        UcId.energy_measure
        (json_input measure_json (length measure_json))
        zero_out
        (record start_world { init = true }) in
    handle_command (some mqtt_message) zero_out start_world ≡ some (r.0, r.2)
handle_command-command_text_example =
    handle_command-command_text UcId.energy_measure measure zero_out start_world NoNul-measure_json
      measure_json-short
