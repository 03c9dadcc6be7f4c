-- ===== src/UseCase/Charger/Gateway.antt =====
-- What the EV gateway of components/iot_usecases/src/iot_uc_ev_auto.c does and refuses.
use esp32_iot_products.CText.{codes}
use esp32_iot_products.UseCase.Charger.{
  Ev, temp_of, ev_sample, ev_reject_contactor, names_contactor, ev_start, ev_json, ev_reply,
}
use esp32_iot_products.UseCase.Types.{In, Out}
use esp32_iot_products.Core.Err.{ok, denied}
use esp32_iot_products.Core.Float.{Float, whole}
use esp32_iot_products.Prelude.Int.{ℤ, pos, negsuc, pos_part, neg_part}
use esp32_iot_products.Prelude.Words.{rem}
use esp32_iot_products.Prelude.{false, refl, arith, ◌≡◌, ◌⊎◌, ℕ, ◌<◌, true, if◌then◌else◌, ◌==◌}

-- The remainder of C is smaller than the divisor, on either side of 0.
rem_bounds : (z : ℤ) (k : ℕ) → 0 < k → (pos_part (rem z k) < k) × (neg_part (rem z k) < k)
unfolding rem
rem_bounds (pos n) k h = omega arith
rem_bounds (negsuc n) k h = ground arith

module _ {F : Type 0} ⦃fl : Float F⦄ where
  -- A start whose JSON speaks of the contactor is denied and changes nothing; any other one sets the
  -- state to Charging, keeps a session that is running, opens session 1 if none is, and leaves the
  -- fault flag and the measurements alone.
  pub ev_start_lem :
      (inp : In F) (out : Out F) (ev : Ev F)
      → let (e, out', ev') = ev_start inp out ev in
        ((names_contactor inp ≡ true) × (e ≡ denied) × (out'.err ≡ denied) × (ev' ≡ ev))
        ⊎ ((names_contactor inp ≡ false)
            × (e ≡ ok)
            × (ev'.state ≡ codes "Charging")
            × (ev'.session ≡ (if ev.session == 0 then 1 else ev.session))
            × (ev'.fault ≡ ev.fault)
            × (ev'.temp ≡ ev.temp))
  unfolding ev_start ev_reject_contactor ev_reply
  ev_start_lem inp out ev = ground arith

  -- If 25 + z / 20 is not above 70 for any whole z between -200 and 200, then a sample always ends
  -- with the fault flag 0: it raises no fault, and it clears one that was latched.
  pub fault-ev_sample :
      (cool : (z : ℤ)
        → pos_part z < 200
        → neg_part z < 200
        → fl.gt (fl.add (whole 25) (fl.div (fl.of_int z) (whole 20))) (whole 70) ≡ false)
      (inp : In F) (out : Out F) (ev : Ev F)
      → let (e, out', ev') = ev_sample inp out ev in (ev'.fault ≡ pos 0) × (out'.alarm ≡ false)
  unfolding ev_sample ev_reply ev_json temp_of
  fault-ev_sample cool inp out ev =
      let bounds = rem_bounds (inp.i 0) 200 (omega arith) in
      rw (cool (rem (inp.i 0) 200) bounds.0 bounds.1) (refl, refl)
