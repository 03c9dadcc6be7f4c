-- ===== src/Tests/Field.antt =====
-- The properties of the products of components/iot_usecases/src/iot_uc_field.c, at inputs that
-- exercise them.
use esp32_iot_products.UseCase.Robot.{robot_init, robot_on_uart}
use esp32_iot_products.UseCase.Agri.{AgriDev, agri_init, pump_hw, agri_pump_on, agri_on_sample}
use esp32_iot_products.UseCase.ColdChain.{Cold, cold_init}
use esp32_iot_products.UseCase.Types.{In, Out, zero_in, zero_out}
use esp32_iot_products.UseCase.Agri.Pump.{pump_hw_lem, agri_pump_lem}
use esp32_iot_products.UseCase.Robot.Heartbeat.{silent, alarm-silent}
use esp32_iot_products.Core.Err.{denied}
use esp32_iot_products.Core.Float.Milli.{Milli, milli_float}
use esp32_iot_products.Prelude.Int.{pos, ltb_ℤ, of_bool}
use esp32_iot_products.Prelude.{◌≡◌, refl, ◌&&◌, true, not, arith, if◌then◌else◌, ◌≤◌, ◌↔◌, ltb}

abbrev still : In Milli
still = zero_in

abbrev answer : Out Milli
answer = zero_out

abbrev field : AgriDev
field = record { ag = agri_init; pwm = record { init = true; duty_max = 1023 }; duty = 0 }

pump_hw_lem_example :
    let d' = pump_hw true field in
    (d'.ag.pump ≡ of_bool (true && not field.ag.inhibit))
    × (d'.duty ≡ (
        if true && not field.ag.inhibit
        then (if ltb field.pwm.duty_max 512 then field.pwm.duty_max else 512)
        else 0))
pump_hw_lem_example = pump_hw_lem true field refl

agri_pump_lem_example :
    let d' = (agri_on_sample (pos 12) answer field).2 in
    let (e, out'', d'') = agri_pump_on still answer field in
    (d'.ag.moist ≡ pos 12)
    × (d'.ag.pump ≡ of_bool (ltb_ℤ (pos 12) field.ag.thresh && not field.ag.inhibit))
    × ((e ≡ denied) ↔ (field.ag.inhibit ≡ true))
    × (d''.ag.pump ≡ of_bool (not field.ag.inhibit))
agri_pump_lem_example = agri_pump_lem (pos 12) still answer field

abbrev fridge : Cold Milli
fridge = cold_init

alarm-silent_example :
    ((robot_on_uart 0 answer (silent 30 answer robot_init)).1.alarm ≡ true) ↔ (26 ≤ 31)
unfolding robot_init
alarm-silent_example = alarm-silent 30 answer robot_init refl (ground arith)
