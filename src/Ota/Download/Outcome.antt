-- ===== src/Ota/Download/Outcome.antt =====
-- How the download task of components/iot_ota/src/iot_ota.c ends.
use esp32_iot_products.Ota.{reboot, OtaState}
use esp32_iot_products.Ota.Download.{
  evt_ota_busy, OtaCalls, deleted, restarted, OtaTask, ota_task, enter_state, finish_task,
  perform_loop, after_loop,
}
use esp32_iot_products.Prelude.Int.{pos, eqb_ℤ}
use esp32_iot_products.Rtos.Event.{event_set, event_clear}
use esp32_iot_products.Prelude.{
  refl, ◌<◌, suc, false, some, ◌≡◌, arith, ℕ, if◌then◌else◌, ◌+◌, ◌&&◌, zero, true, subst, sym,
}

module _ (c : OtaCalls) where
  -- The n-th answer is the first that ends the loop.
  abbrev pub Answers : ℕ → Type 0
  Answers n =
      ((i : ℕ) → i < n → eqb_ℤ (c.perform i) c.in_progress ≡ true)
      × (eqb_ℤ (c.perform n) c.in_progress ≡ false)

  perform_loop-Answers :
      (n fuel i m : ℕ)
      → Answers m
      → i + n ≡ m
      → n < fuel
      → perform_loop c fuel i ≡ some (c.perform m)
  unfolding perform_loop
  perform_loop-Answers n zero i m a e h = ground arith
  perform_loop-Answers zero (suc fuel) i m (before, at) e h =
      let same : i ≡ m = omega (arith, e) in
      subst (λ j. perform_loop c (suc fuel) j ≡ some (c.perform m)) (sym same) (rw at refl)
  perform_loop-Answers (suc n) (suc fuel) i m (before, at) e h =
      let on = before i (omega (arith, e)) in
      let same : i + 1 + n ≡ m = omega (arith, e) in
      rw (on, perform_loop-Answers n fuel (i + 1) m (before, at) same (omega (arith, h))) refl

  -- When the n-th answer is the first other than `in_progress`, the task ends, with fuel for more
  -- rounds than n: it restarts the device exactly if the download could begin, that answer is a success, all data has
  -- arrived, and the image is accepted; otherwise the update has failed, and the tasks no longer see
  -- it as busy.
  pub ota_task_lem :
      (n fuel : ℕ) (t : OtaTask)
      → Answers n
      → n < fuel
      → let good =
          eqb_ℤ c.begin (pos 0)
          && (c.complete && eqb_ℤ (c.perform n) (pos 0))
          && eqb_ℤ c.finish (pos 0) in
        let (e, d) = ota_task c fuel t in
        let marked = event_set t.system_evt evt_ota_busy in
        (e ≡ (if good then restarted else deleted))
        × (d.ota.state ≡ (if good then reboot else OtaState.fail))
        × (d.ota.url ≡ t.ota.url)
        × (d.system_evt ≡ (if good then marked else event_clear marked evt_ota_busy))
  unfolding ota_task after_loop enter_state finish_task
  ota_task_lem n fuel t a h =
      let last = perform_loop-Answers n fuel 0 n a (omega arith) h in ground (arith, last)
