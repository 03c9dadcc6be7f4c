-- ===== src/Tests/Vehicles.antt =====
-- The properties of the charger and of the CAN gateway, at inputs that exercise them.
use esp32_iot_products.UseCase.Charger.{Ev, ev_init}
use esp32_iot_products.UseCase.Types.{In, Out, zero_in, zero_out}
use esp32_iot_products.Core.Float.{whole}
use esp32_iot_products.Core.Float.Milli.{Milli, milli_float}
use esp32_iot_products.Prelude.Int.{ℤ, pos, pos_part, neg_part, negsuc, ◌+ℤ◌, ◌*ℤ◌}
use esp32_iot_products.Prelude.{◌≡◌, false, ◌<◌, arith}

abbrev request : In Milli
request = zero_in

abbrev display : Out Milli
display = zero_out

abbrev charger : Ev Milli
charger = ev_init

milli_cool :
    (z : ℤ)
    → pos_part z < 200
    → neg_part z < 200
    → milli_float.gt
        (milli_float.add (whole 25) (milli_float.div (milli_float.of_int z) (whole 20)))
        (whole 70)
      ≡ false
unfolding ◌*ℤ◌ ◌+ℤ◌
milli_cool (pos k) p n = ground arith
milli_cool (negsuc k) p n = ground arith

abbrev latched : Ev Milli
latched = record ev_init { fault = pos 1 }
