-- ===== src/Rtos/Loops.antt =====
-- The loops of sensor_task and proc_task in components/iot_rtos/src/iot_tasks.c and of mqtt_pump in
-- components/iot_mqtt/src/iot_mqtt.c, step by step, over the two queues between them. The sensor task
-- and the processing task look at the flag in one step, and wait; the end of the wait, in a timeout or
-- in an item, and what follows up to the next look are another step, before which the flag may be set.
-- Any task may take the next step. A round of the pump is one step: nothing is stated of one that is
-- asked to stop.
pub mod Pipeline
pub mod Losses
pub mod Drain
pub mod Shutdown
use esp32_iot_products.CText.{codes}
use esp32_iot_products.Core.Err.{Err, ok, timeout}
use esp32_iot_products.Core.Types.{json_telemetry_len, TelemetryMsg, overwrite}
use esp32_iot_products.Prelude.Int.{pos}
use esp32_iot_products.Prelude.Words.{add32}
use esp32_iot_products.Rtos.Queue.Bounded.{BoundedQueue}
use esp32_iot_products.Prelude.{
  [], true, not, ◌++◌, ℕ, Bool, none, false, some, List, Option, ◌∷◌, if◌then◌else◌, replicate,
  refl, ◌≡◌, ◌||◌,
}

-- `iot_sensor_hook_t`, with the state behind it.
abbrev pub SensorHook : Type 0 → Type 0
SensorHook S = TelemetryMsg → S → Err × TelemetryMsg × S

-- `iot_proc_hook_t`: what it returns, and leaves in `*out`.
abbrev pub ProcHook : Type 0
ProcHook = TelemetryMsg → TelemetryMsg → Err × TelemetryMsg

-- `s_shutdown`, `s_seq`, the queues `sample_q` and `telemetry_q`, `s_run` of iot_mqtt.c, and what the
-- sensor hook keeps; and whether the sensor task and the processing task have passed the test of the
-- flag and wait.
pub record Line (S P T : Type 0) : Type 0 where
  pub shutdown : Bool
  pub seq : ℕ
  pub sample_q : P
  pub telemetry_q : T
  pub pumping : Bool
  pub sensing : Bool
  pub processing : Bool
  pub sensor : S

-- `memset(&msg, 0, sizeof(msg))`, and the two fields that are set.
unfoldable pub blank_message : ℕ → ℕ → TelemetryMsg
blank_message seq millis = record {
  seq = seq;
  unix_ms = pos millis;
  flags = 0;
  payload_len = 0;
  payload = replicate json_telemetry_len 0;
}

-- What the hook makes of the blank message, or `{}` where there is no hook.
pub take_sample : {S : Type 0} → Option (SensorHook S) → TelemetryMsg → S → Err × TelemetryMsg × S
take_sample none msg s =
    (ok, record msg { payload_len = 2; payload = overwrite (codes "{}") 2 msg.payload }, s)
take_sample (some hook) msg s = hook msg s

-- `out = in;` and the hook, if any, whose code is ignored.
unfoldable pub process : Option ProcHook → TelemetryMsg → TelemetryMsg
process none inp = inp
process (some hook) inp = (hook inp inp).1

-- The messages of a step: those offered to `sample_q`, those that the processing task took from it,
-- and those handed to the publisher.
pub record Traffic : Type 0 where
  pub offered : List TelemetryMsg
  pub taken : List TelemetryMsg
  pub published : List TelemetryMsg

abbrev pub quiet : Traffic
quiet = record { offered = []; taken = []; published = [] }

-- A step of a task, or another task's setting of a flag.
pub data Act : Type 0 where
  senses : ℕ → Act
  sensor_looks proc_looks processes pumps shuts_down stops_pump : Act

-- The item, where the code returned is IOT_OK.
pub received : {A : Type 0} → Err → Option A → Option A
received ok item = item
received _ item = none

abbrev pub q_len : ℕ
q_len = 16

pub received-ok : {A : Type 0} (e : Err) (item : Option A) → e ≡ ok → received e item ≡ item
unfolding received
received-ok e item h = rw h refl

pub received-timeout :
    {A : Type 0} (e : Err) (item : Option A) → e ≡ timeout → received e item ≡ none
unfolding received
received-timeout e item h = rw h refl

module _ {S : Type 0} (P T : BoundedQueue TelemetryMsg q_len) where
  -- What follows the hook of the sensor task.
  offer : Err → TelemetryMsg → Line S P.Queue T.Queue → Traffic × Line S P.Queue T.Queue
  offer ok msg l =
      (record quiet { offered = msg ∷ [] }, record l { sample_q = (P.send msg l.sample_q).1 })
  offer _ msg l = (quiet, l)

  -- The test of the flag; a task that waits already does not come to it.
  sensor_look : Line S P.Queue T.Queue → Line S P.Queue T.Queue
  sensor_look l = record l { sensing = l.sensing || not l.shutdown }

  proc_look : Line S P.Queue T.Queue → Line S P.Queue T.Queue
  proc_look l = record l { processing = l.processing || not l.shutdown }

  -- From the end of the wait for the semaphore on. The clock reads `millis`.
  sensor_round :
      Option (SensorHook S) → ℕ → Line S P.Queue T.Queue → Traffic × Line S P.Queue T.Queue
  sensor_round hook millis l =
      let n = add32 l.seq 1 in
      let (e, msg, s) = take_sample hook (blank_message n millis) l.sensor in
      if not l.sensing
      then (quiet, l)
      else offer e msg (record l { seq = n; sensor = s; sensing = false })

  -- What follows the reception of an item, if there is one.
  forward :
      Option ProcHook
      → Option TelemetryMsg
      → Line S P.Queue T.Queue
      → Traffic × Line S P.Queue T.Queue
  forward hook none l = (quiet, l)
  forward hook (some inp) l = (
    record quiet { taken = inp ∷ [] },
    record l { telemetry_q = (T.send (process hook inp) l.telemetry_q).1 },
  )

  -- From the end of the wait for an item on.
  proc_round : Option ProcHook → Line S P.Queue T.Queue → Traffic × Line S P.Queue T.Queue
  proc_round hook l =
      let (e, item, q) = P.recv l.sample_q in
      if not l.processing
      then (quiet, l)
      else forward hook (received e item) (record l { sample_q = q; processing = false })

  hand_over : Option TelemetryMsg → Line S P.Queue T.Queue → Traffic × Line S P.Queue T.Queue
  hand_over none l = (quiet, l)
  hand_over (some msg) l = (record quiet { published = msg ∷ [] }, l)

  pump_round : Line S P.Queue T.Queue → Traffic × Line S P.Queue T.Queue
  pump_round l =
      let (e, item, q) = T.recv l.telemetry_q in
      if not l.pumping
      then (quiet, l)
      else hand_over (received e item) (record l { telemetry_q = q })

  pub act :
      Option (SensorHook S)
      → Option ProcHook
      → Act
      → Line S P.Queue T.Queue
      → Traffic × Line S P.Queue T.Queue
  act sensor proc (senses millis) l = sensor_round sensor millis l
  act sensor proc sensor_looks l = (quiet, sensor_look l)
  act sensor proc proc_looks l = (quiet, proc_look l)
  act sensor proc processes l = proc_round proc l
  act sensor proc pumps l = pump_round l
  act sensor proc shuts_down l = (quiet, record l { shutdown = true })
  act sensor proc stops_pump l = (quiet, record l { pumping = false })

  -- Any interleaving of steps, with all its traffic.
  pub acts :
      Option (SensorHook S)
      → Option ProcHook
      → List Act
      → Line S P.Queue T.Queue
      → Traffic × Line S P.Queue T.Queue
  acts sensor proc [] l = (quiet, l)
  acts sensor proc (a ∷ rest) l =
      let (t, l') = act sensor proc a l in
      let (u, l'') = acts sensor proc rest l' in
      (
        record {
          offered = t.offered ++ u.offered;
          taken = t.taken ++ u.taken;
          published = t.published ++ u.published;
        },
        l'',
      )
