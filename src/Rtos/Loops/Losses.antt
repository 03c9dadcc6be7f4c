-- ===== src/Rtos/Loops/Losses.antt =====
-- How many messages the loops of components/iot_rtos/src/iot_tasks.c and of the pump may lose.
use mathlib.Core.List.{Sublist}
use esp32_iot_products.Core.Err.{Err, ok}
use esp32_iot_products.Core.Types.{TelemetryMsg}
use esp32_iot_products.Rtos.Loops.{
  SensorHook, ProcHook, Line, process, Traffic, quiet, Act, senses, processes, q_len, act, offer,
  forward, hand_over, blank_message, take_sample, sensor_looks, proc_looks, pumps, shuts_down,
  stops_pump, sensor_look, proc_look, sensor_round, proc_round, pump_round, received, acts,
}
use esp32_iot_products.Rtos.Queue.Bounded.{BoundedQueue}
use esp32_iot_products.Prelude.{
  ◌≡◌, true, ◌+◌, not, List, false, inr, none, ◌==◌, length, if◌then◌else◌, ℕ, some, Bool, Option,
  ◌⊎◌, ◌∷◌, [], length-append, arith, inl, map, ◌++◌,
}
use esp32_iot_products.Prelude.Words.{add32}
use esp32_iot_products.Rtos.Loops.Pipeline.{
  received_cases, LineSane, under_way, act-Flows, acts-published,
}

module _ {S : Type 0} (P T : BoundedQueue TelemetryMsg q_len) (sensor : Option (SensorHook S))
    (proc : Option ProcHook) where
  -- The messages in the two queues.
  pub held : Line S P.Queue T.Queue → ℕ
  held l = length (T.items l.telemetry_q) + length (P.items l.sample_q)

  -- What a step with this traffic loses: the messages that it sends to a queue that is full.
  pub lost_of : Line S P.Queue T.Queue → Traffic → ℕ
  lost_of l t =
      (if length (P.items l.sample_q) == q_len then length t.offered else 0)
      + (if length (T.items l.telemetry_q) == q_len then length t.taken else 0)

  pub lost : List Act → Line S P.Queue T.Queue → ℕ
  lost [] l = 0
  lost (a ∷ rest) l = let (t, l') = act P T sensor proc a l in lost_of l t + lost rest l'

  abbrev Keeps : Line S P.Queue T.Queue → Traffic × Line S P.Queue T.Queue → Type 0
  Keeps l r = held l + length r.0.offered ≡ length r.0.published + held r.1 + lost_of l r.0

  offer-Keeps :
      (e : Err) (msg : TelemetryMsg) (l : Line S P.Queue T.Queue)
      → P.IsSane l.sample_q
      → Keeps l (offer P T e msg l)
  unfolding offer held lost_of
  offer-Keeps ok msg l v = elim (P.send-law msg l.sample_q v) [
    | inl (e, full, same) ↦ rw same (ground (arith, full))
    | inr (e, room, more, v') ↦
        rw more (ground (arith, length-append (P.items l.sample_q) (msg ∷ [])))
  ]
  offer-Keeps _ msg l v = ground arith

  forward-Keeps :
      (r : Option TelemetryMsg) (q : P.Queue) (l : Line S P.Queue T.Queue)
      → T.IsSane l.telemetry_q
      → ((r ≡ none) × (q ≡ l.sample_q))
        ⊎ (((x : TelemetryMsg) × (r ≡ some x) × (P.items l.sample_q ≡ x ∷ P.items q)) × P.IsSane q)
      → Keeps l (forward P T proc r (record l { sample_q = q; processing = false }))
  unfolding forward held lost_of
  forward-Keeps r q l v (inl (e, same)) = rw (e, same) (ground arith)
  forward-Keeps r q l v (inr ((x, e, first), u)) =
      rw (e, first)
        (elim (T.send-law (process proc x) l.telemetry_q v) [
          | inl (e, full, same) ↦ rw same (ground (arith, full))
          | inr (e, room, more, v') ↦
              rw more (ground (arith, length-append (T.items l.telemetry_q) (process proc x ∷ [])))
        ])

  hand_over-Keeps :
      (r : Option TelemetryMsg) (q : T.Queue) (l : Line S P.Queue T.Queue)
      → ((r ≡ none) × (q ≡ l.telemetry_q))
        ⊎ (((x : TelemetryMsg) × (r ≡ some x) × (T.items l.telemetry_q ≡ x ∷ T.items q))
            × T.IsSane q)
      → Keeps l (hand_over P T r (record l { telemetry_q = q }))
  unfolding hand_over held lost_of
  hand_over-Keeps r q l (inl (e, same)) = rw (e, same) (ground arith)
  hand_over-Keeps r q l (inr ((x, e, first), u)) = rw (e, first) (ground arith)

  -- A step of a task that waits, and of one that does not.
  Keeps-if :
      (b : Bool) (l : Line S P.Queue T.Queue) (x : Traffic × Line S P.Queue T.Queue)
      → Keeps l x
      → Keeps l (if not b then (quiet, l) else x)
  unfolding lost_of
  Keeps-if true l x k = k
  Keeps-if false l x k = ground arith

  act-Keeps :
      (a : Act) (l : Line S P.Queue T.Queue) → LineSane P T l → Keeps l (act P T sensor proc a l)
  unfolding act sensor_round proc_round pump_round sensor_look proc_look held lost_of
  act-Keeps (senses millis) l v =
      let n = add32 l.seq 1 in
      let (e, msg, s) = take_sample sensor (blank_message n millis) l.sensor in
      let after : Line S P.Queue T.Queue = record l { seq = n; sensor = s; sensing = false } in
      Keeps-if l.sensing l (offer P T e msg after) (offer-Keeps e msg after v.samples_sane)
  act-Keeps processes l v =
      let (e, item, q) = P.recv l.sample_q in
      Keeps-if l.processing l _ (
        forward-Keeps (received e item) q l v.telemetry_sane
          (received_cases P l.sample_q v.samples_sane))
  act-Keeps pumps l v =
      let (e, item, q) = T.recv l.telemetry_q in
      Keeps-if l.pumping l _
        (hand_over-Keeps (received e item) q l (received_cases T l.telemetry_q v.telemetry_sane))
  act-Keeps sensor_looks l v = ground arith
  act-Keeps proc_looks l v = ground arith
  act-Keeps shuts_down l v = ground arith
  act-Keeps stops_pump l v = ground arith

  acts-Keeps :
      (turns : List Act) (l : Line S P.Queue T.Queue)
      → LineSane P T l
      → let (t, l') = acts P T sensor proc turns l in
        held l + length t.offered ≡ length t.published + held l' + lost turns l
  unfolding acts lost
  acts-Keeps [] l v = ground arith
  acts-Keeps (a ∷ rest) l v =
      let (t, l') = act P T sensor proc a l in
      let (u, l'') = acts P T sensor proc rest l' in
      let now = act-Keeps a l v in
      let later = acts-Keeps rest l' (act-Flows P T sensor proc a l v).1 in
      ground (
        arith,
        now,
        later,
        length-append t.offered u.offered,
        length-append t.published u.published,
      )

  -- Whatever the order of the steps, from sound queues on: the messages that reach the publisher, followed
  -- by those still in the two queues, are a sublist of those that were under way at first and those that
  -- the sensor task offered since, as the processing hook turns them out, so that none is published twice
  -- and none overtakes another; and exactly as many are missing as were sent to a queue that held 16.
  pub acts-lost :
      (turns : List Act) (l : Line S P.Queue T.Queue)
      → LineSane P T l
      → let (t, l') = acts P T sensor proc turns l in
        Sublist
          (t.published ++ under_way P T sensor proc l')
          (under_way P T sensor proc l ++ map (process proc) t.offered)
        × (held l + length t.offered ≡ length t.published + held l' + lost turns l)
  acts-lost turns l v = ((acts-published P T sensor proc turns l v).0, acts-Keeps turns l v)
