-- ===== src/Rtos/Loops/Drain.antt =====
-- That the pump of components/iot_mqtt/src/iot_mqtt.c publishes what waits for it, whatever the other
-- tasks do in between.
use mathlib.Core.List.{append-nil, append_assoc}
use esp32_iot_products.Rtos.Loops.{
  acts, received, Act, pumps, stops_pump, SensorHook, ProcHook, Line, blank_message, take_sample,
  process, Traffic, quiet, senses, processes, q_len, received-ok, act, offer, sensor_look,
  proc_look, sensor_round, forward, proc_round, hand_over, pump_round,
}
use esp32_iot_products.Core.Err.{Err, ok}
use esp32_iot_products.Core.Types.{TelemetryMsg}
use esp32_iot_products.Prelude.Words.{add32}
use esp32_iot_products.Rtos.Queue.Bounded.{BoundedQueue}
use esp32_iot_products.Rtos.Loops.Pipeline.{LineSane, act-Flows}
use esp32_iot_products.Prelude.{
  if◌then◌else◌, Bool, sym, length, Option, ap, List, ◌≤◌, none, false, inr, ◌∙◌, arith, inl, true,
  ◌∷◌, some, suc, ℕ, ◌≡◌, [], ◌++◌, not, refl,
}

if-not-true : {A : Type 0} (b : Bool) (x y : A) → b ≡ true → (if not b then x else y) ≡ y
if-not-true true x y h = refl
if-not-true false x y h = ground (arith, h)

-- The steps that the pump takes, and whether it is not asked to stop.
unfoldable pub pump_steps : List Act → ℕ
pump_steps [] = 0
pump_steps (pumps ∷ rest) = suc (pump_steps rest)
pump_steps (other ∷ rest) = pump_steps rest

unfoldable pub keeps_pumping : List Act → Bool
keeps_pumping [] = true
keeps_pumping (stops_pump ∷ rest) = false
keeps_pumping (other ∷ rest) = keeps_pumping rest

-- The first item of a list, and the others.
cons_parts : {A : Type 0} (x y : A) (xs ys : List A) → x ∷ xs ≡ y ∷ ys → (x ≡ y) × (xs ≡ ys)
cons_parts x y xs ys e = (
  ap (λ zs. elim zs [ [] ↦ x | z ∷ rest ↦ z ]) e,
  ap (λ zs. elim zs [ [] ↦ xs | z ∷ rest ↦ rest ]) e,
)

module _ {S : Type 0} (P T : BoundedQueue TelemetryMsg q_len) where
  module _ (sensor : Option (SensorHook S)) (proc : Option ProcHook) where
    -- A step that publishes nothing, and at most adds to `telemetry_q`.
    abbrev Calm : Line S P.Queue T.Queue → Traffic × Line S P.Queue T.Queue → Type 0
    Calm l r =
        (r.0.published ≡ [])
        × (r.1.pumping ≡ l.pumping)
        × ((more : List TelemetryMsg) × (T.items r.1.telemetry_q ≡ T.items l.telemetry_q ++ more))

    still-Calm : (l : Line S P.Queue T.Queue) → Calm l (quiet, l)
    still-Calm l = (refl, refl, ([], sym (append-nil (T.items l.telemetry_q))))

    Calm-if :
        (b : Bool) (l : Line S P.Queue T.Queue) (x : Traffic × Line S P.Queue T.Queue)
        → Calm l x
        → Calm l (if not b then (quiet, l) else x)
    Calm-if true l x c = c
    Calm-if false l x c = still-Calm l

    offer-Calm :
        (e : Err) (msg : TelemetryMsg) (l : Line S P.Queue T.Queue) → Calm l (offer P T e msg l)
    unfolding offer
    offer-Calm ok msg l = (refl, refl, ([], sym (append-nil (T.items l.telemetry_q))))
    offer-Calm _ msg l = still-Calm l

    forward-Calm :
        (r : Option TelemetryMsg) (l : Line S P.Queue T.Queue)
        → T.IsSane l.telemetry_q
        → Calm l (forward P T proc r l)
    unfolding forward
    forward-Calm none l v = still-Calm l
    forward-Calm (some x) l v = elim (T.send-law (process proc x) l.telemetry_q v) [
      | inl (e, full, same) ↦
          (refl, refl, ([], ap T.items same ∙ sym (append-nil (T.items l.telemetry_q))))
      | inr (e, room, more, u) ↦ (refl, refl, (process proc x ∷ [], more))
    ]

    act-Calm :
        (a : Act) (l : Line S P.Queue T.Queue)
        → LineSane P T l
        → (pump_steps (a ∷ []) ≡ 0)
        → keeps_pumping (a ∷ []) ≡ true
        → Calm l (act P T sensor proc a l)
    unfolding act sensor_round proc_round sensor_look proc_look pump_steps keeps_pumping
    act-Calm (senses millis) l v h k =
        let n = add32 l.seq 1 in
        let (e, msg, s) = take_sample sensor (blank_message n millis) l.sensor in
        Calm-if l.sensing l _ (offer-Calm e msg (record l { seq = n; sensor = s; sensing = false }))
    act-Calm processes l v h k =
        let (e, item, q) = P.recv l.sample_q in
        Calm-if l.processing l _ (
          forward-Calm (received e item) (record l { sample_q = q; processing = false })
            v.telemetry_sane)
    act-Calm pumps l v h k = absurd (omega (arith, h))
    act-Calm stops_pump l v h k = ground (arith, k)
    act-Calm _ l v h k = (refl, refl, ([], sym (append-nil (T.items l.telemetry_q))))

    pump_round-taken :
        (l : Line S P.Queue T.Queue) (x : TelemetryMsg)
        → l.pumping ≡ true
        → (T.recv l.telemetry_q).0 ≡ ok
        → (T.recv l.telemetry_q).1 ≡ some x
        → pump_round P T l ≡ (
          record quiet { published = x ∷ [] },
          record l { telemetry_q = (T.recv l.telemetry_q).2 },
        )
    unfolding pump_round hand_over
    pump_round-taken l x on e i =
        let (c, item, q) = T.recv l.telemetry_q in
        if-not-true l.pumping _ _ on
        ∙ ap (λ r. hand_over P T r (record l { telemetry_q = q })) (received-ok c item e ∙ i)

    -- What is published first, when the pump takes as many steps as there are messages in front.
    front_published :
        (turns : List Act) (l : Line S P.Queue T.Queue) (ys zs : List TelemetryMsg)
        → LineSane P T l
        → l.pumping ≡ true
        → keeps_pumping turns ≡ true
        → T.items l.telemetry_q ≡ ys ++ zs
        → length ys ≤ pump_steps turns
        → (later : List TelemetryMsg) × ((acts P T sensor proc turns l).0.published ≡ ys ++ later)
    unfolding acts pump_steps keeps_pumping act pump_round
    front_published turns l [] zs v on go e few = ((acts P T sensor proc turns l).0.published, refl)
    front_published [] l (y ∷ ys) zs v on go e few = ground (arith, few)
    front_published (pumps ∷ rest) l (y ∷ ys) zs v on go e few =
        elim (T.recv-law l.telemetry_q v.telemetry_sane) [
          | inl (c, i, empty, same) ↦ ground (arith, sym empty ∙ e)
          | inr (c, (x, i, first), u) ↦
              let l' : Line S P.Queue T.Queue = record l {
                telemetry_q = (T.recv l.telemetry_q).2;
              } in
              let (head, tail) =
                cons_parts x y (T.items l'.telemetry_q) (ys ++ zs) (sym first ∙ e) in
              let sane : LineSane P T l' = record {
                samples_sane = v.samples_sane;
                telemetry_sane = u;
              } in
              let (later, told) =
                front_published rest l' ys zs sane on go tail (ground (arith, few)) in
              (
                later,
                ap (λ r. r.0.published ++ (acts P T sensor proc rest r.1).0.published)
                      (pump_round-taken l x on c i)
                    ∙ ap (λ xs. x ∷ xs) told
                    ∙ ap (λ z. z ∷ (ys ++ later)) head,
              )
        ]
    front_published (stops_pump ∷ rest) l (y ∷ ys) zs v on go e few = ground (arith, go)
    front_published (a ∷ rest) l (y ∷ ys) zs v on go e few =
        let (t, l') = act P T sensor proc a l in
        let (quietly, up, (more, grown)) = act-Calm a l v refl refl in
        let (later, told) =
          front_published rest l' (y ∷ ys) (zs ++ more) (act-Flows P T sensor proc a l v).1
            (up ∙ on) go (grown ∙ ap (λ xs. xs ++ more) e ∙ append_assoc (y ∷ ys) zs more) few in
        (later, ap (λ xs. xs ++ (acts P T sensor proc rest l').0.published) quietly ∙ told)

    -- Whatever the order of the steps, from sound queues on: while the pump is not asked to stop and
    -- takes at least as many steps as messages wait in `telemetry_q`, it hands these to the publisher
    -- before all others, in order.
    pub acts-drained :
        (turns : List Act) (l : Line S P.Queue T.Queue)
        → LineSane P T l
        → l.pumping ≡ true
        → keeps_pumping turns ≡ true
        → length (T.items l.telemetry_q) ≤ pump_steps turns
        → (later : List TelemetryMsg) × ((acts P T sensor proc turns l).0.published
            ≡ T.items l.telemetry_q ++ later)
    acts-drained turns l v on go few =
        front_published turns l (T.items l.telemetry_q) [] v on go
          (sym (append-nil (T.items l.telemetry_q))) few
