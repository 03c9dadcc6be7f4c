-- ===== src/Rtos/Loops/Pipeline.antt =====
-- What happens to messages between the sensor task and the publisher, whatever the interleaving of
-- components/iot_rtos/src/iot_tasks.c and the pump of components/iot_mqtt/src/iot_mqtt.c.
use mathlib.Core.List.Sublist
use mathlib.Core.List.{Sublist, append_assoc, append-nil, sublist-append_left, map-append}
use esp32_iot_products.Core.Err.{Err, ok}
use esp32_iot_products.Core.Types.{TelemetryMsg}
use esp32_iot_products.Rtos.Queue.Bounded.{BoundedQueue}
use esp32_iot_products.Prelude.{
  sym, Option, List, map, ◌++◌, [], inr, ℕ, ◌∷◌, inl, ◌≡◌, Bool, true, false, ◌⊎◌, some, ◌∙◌, none,
  if◌then◌else◌, not,
}
use esp32_iot_products.Prelude.Words.{add32}
use esp32_iot_products.Rtos.Loops.{
  SensorHook, ProcHook, Line, blank_message, take_sample, process, Traffic, quiet, received, q_len,
  offer, sensor_round, pump_round, Act, senses, processes, pumps, shuts_down, stops_pump, act, acts,
  proc_round, received-ok, received-timeout, forward, hand_over, sensor_looks, proc_looks,
  sensor_look, proc_look,
}

-- A list that loses items in two stages keeps its order.
Sublist-stages :
    {A : Type 0} (p q w₀ w₁ w₂ f g : List A)
    → Sublist (p ++ w₁) (w₀ ++ f)
    → Sublist (q ++ w₂) (w₁ ++ g)
    → Sublist ((p ++ q) ++ w₂) (w₀ ++ (f ++ g))
Sublist-stages p q w₀ w₁ w₂ f g one two =
    rw (append_assoc p q w₂, sym (append_assoc w₀ f g))
      (Sublist.trans (Sublist.append (Sublist.refl p) two)
        (rw (sym (append_assoc p w₁ g)) (Sublist.append one (Sublist.refl g))))

-- What a reception gives, as the loops see it.
pub received_cases :
    {A : Type 0} {len : ℕ} (Q : BoundedQueue A len) (q : Q.Queue)
    → Q.IsSane q
    → let (e, item, q') = Q.recv q in
      ((received e item ≡ none) × (q' ≡ q))
      ⊎ (((x : A) × (received e item ≡ some x) × (Q.items q ≡ x ∷ Q.items q')) × Q.IsSane q')
received_cases Q q v = elim (Q.recv-law q v) [
  | inl (e, i, empty, same) ↦ inl (received-timeout _ _ e, same)
  | inr (e, i, v') ↦ inr ((i.0, received-ok _ _ e ∙ i.1, i.2), v')
]

module _ {S : Type 0} (P T : BoundedQueue TelemetryMsg q_len) where
  -- The queues between the tasks are sound.
  pub record LineSane (l : Line S P.Queue T.Queue) : Type 0 where
    pub samples_sane : P.IsSane l.sample_q
    pub telemetry_sane : T.IsSane l.telemetry_q

  module _ (sensor : Option (SensorHook S)) (proc : Option ProcHook) where
    -- The messages under way, as they will be published.
    pub under_way : Line S P.Queue T.Queue → List TelemetryMsg
    under_way l = T.items l.telemetry_q ++ map (process proc) (P.items l.sample_q)

    -- What one round does to the messages under way.
    abbrev pub Flows : Line S P.Queue T.Queue → Traffic × Line S P.Queue T.Queue → Type 0
    Flows l r =
        Sublist (r.0.published ++ under_way r.1) (under_way l ++ map (process proc) r.0.offered)
        × LineSane r.1

    still : (l : Line S P.Queue T.Queue) → LineSane l → Flows l (quiet, l)
    still l v = (rw (append-nil (under_way l)) (Sublist.refl (under_way l)), v)

    offer-Flows :
        (e : Err) (msg : TelemetryMsg) (l : Line S P.Queue T.Queue)
        → LineSane l
        → Flows l (offer P T e msg l)
    unfolding offer under_way
    offer-Flows ok msg l v = elim (P.send-law msg l.sample_q v.samples_sane) [
      | inl (e, full, same) ↦ (
        rw same (sublist-append_left (under_way l) (process proc msg ∷ [])),
        record { samples_sane = rw same v.samples_sane; telemetry_sane = v.telemetry_sane },
      )
      | inr (e, room, more, v') ↦ (
        rw
            (
              more,
              map-append (process proc) (P.items l.sample_q) (msg ∷ []),
              append_assoc (T.items l.telemetry_q) (map (process proc) (P.items l.sample_q))
                  (process proc msg ∷ []),
            )
            (Sublist.refl _),
        record { samples_sane = v'; telemetry_sane = v.telemetry_sane },
      )
    ]
    offer-Flows _ msg l v = still l v

    Flows-if :
        (b : Bool) (l : Line S P.Queue T.Queue) (x y : Traffic × Line S P.Queue T.Queue)
        → Flows l x
        → Flows l y
        → Flows l (if b then x else y)
    Flows-if true l x y u v = u
    Flows-if false l x y u v = v

    sensor_round-Flows :
        (millis : ℕ) (l : Line S P.Queue T.Queue)
        → LineSane l
        → Flows l (sensor_round P T sensor millis l)
    unfolding sensor_round under_way
    sensor_round-Flows millis l v =
        let n = add32 l.seq 1 in
        let (e, msg, s) = take_sample sensor (blank_message n millis) l.sensor in
        let after : Line S P.Queue T.Queue = record l { seq = n; sensor = s; sensing = false } in
        Flows-if (not l.sensing) l (quiet, l) (offer P T e msg after) (still l v)
          (offer-Flows e msg after
            (record { samples_sane = v.samples_sane; telemetry_sane = v.telemetry_sane }))

    hand_over-Flows :
        (r : Option TelemetryMsg) (q : T.Queue) (l : Line S P.Queue T.Queue)
        → LineSane l
        → ((r ≡ none) × (q ≡ l.telemetry_q))
          ⊎ (((x : TelemetryMsg) × (r ≡ some x) × (T.items l.telemetry_q ≡ x ∷ T.items q))
              × T.IsSane q)
        → Flows l (hand_over P T r (record l { telemetry_q = q }))
    unfolding hand_over under_way
    hand_over-Flows r q l v (inl (e, same)) = rw (e, same) (still l v)
    hand_over-Flows r q l v (inr (got, u)) = rw (got.1) (
      rw (got.2, append-nil (got.0 ∷ T.items q ++ map (process proc) (P.items l.sample_q)))
          (Sublist.refl _),
      record { samples_sane = v.samples_sane; telemetry_sane = u },
    )

    pump_round-Flows : (l : Line S P.Queue T.Queue) → LineSane l → Flows l (pump_round P T l)
    unfolding pump_round
    pump_round-Flows l v =
        let (e, item, q) = T.recv l.telemetry_q in
        Flows-if (not l.pumping) l (quiet, l)
          (hand_over P T (received e item) (record l { telemetry_q = q })) (still l v)
          (hand_over-Flows (received e item) q l v
            (received_cases T l.telemetry_q v.telemetry_sane))

    forward-Flows :
        (inp : TelemetryMsg) (q : P.Queue) (l : Line S P.Queue T.Queue)
        → LineSane l
        → P.items l.sample_q ≡ inp ∷ P.items q
        → P.IsSane q
        → Flows l (
          record quiet { taken = inp ∷ [] },
          record l {
            processing = false;
            sample_q = q;
            telemetry_q = (T.send (process proc inp) l.telemetry_q).1;
          },
        )
    unfolding under_way
    forward-Flows inp q l v first u =
        let out = process proc inp in
        let left = map (process proc) (P.items q) in
        elim (T.send-law out l.telemetry_q v.telemetry_sane) [
          | inl (e, full, same) ↦ (
            rw (same, first, append-nil (T.items l.telemetry_q ++ (out ∷ left)))
                (Sublist.append (Sublist.refl (T.items l.telemetry_q))
                  (Sublist.cons out (Sublist.refl left))),
            record { samples_sane = u; telemetry_sane = rw same v.telemetry_sane },
          )
          | inr (e, room, more, v') ↦ (
            rw
                (
                  more,
                  first,
                  append-nil (T.items l.telemetry_q ++ (out ∷ left)),
                  append_assoc (T.items l.telemetry_q) (out ∷ []) left,
                )
                (Sublist.refl _),
            record { samples_sane = u; telemetry_sane = v' },
          )
        ]

    forwards-Flows :
        (r : Option TelemetryMsg) (q : P.Queue) (l : Line S P.Queue T.Queue)
        → LineSane l
        → ((r ≡ none) × (q ≡ l.sample_q))
          ⊎ (((x : TelemetryMsg) × (r ≡ some x) × (P.items l.sample_q ≡ x ∷ P.items q))
              × P.IsSane q)
        → Flows l (forward P T proc r (record l { sample_q = q; processing = false }))
    unfolding forward under_way
    forwards-Flows r q l v (inl (e, same)) =
        rw (e, same)
          (
            (still l v).0,
            record { samples_sane = v.samples_sane; telemetry_sane = v.telemetry_sane },
          )
    forwards-Flows r q l v (inr (got, u)) = rw (got.1) (forward-Flows got.0 q l v got.2 u)

    proc_round-Flows : (l : Line S P.Queue T.Queue) → LineSane l → Flows l (proc_round P T proc l)
    unfolding proc_round
    proc_round-Flows l v =
        let (e, item, q) = P.recv l.sample_q in
        Flows-if (not l.processing) l (quiet, l)
          (forward P T proc (received e item) (record l { sample_q = q; processing = false }))
          (still l v)
          (forwards-Flows (received e item) q l v (received_cases P l.sample_q v.samples_sane))

    pub act-Flows :
        (a : Act) (l : Line S P.Queue T.Queue) → LineSane l → Flows l (act P T sensor proc a l)
    unfolding act under_way sensor_look proc_look
    act-Flows (senses millis) l v = sensor_round-Flows millis l v
    act-Flows processes l v = proc_round-Flows l v
    act-Flows pumps l v = pump_round-Flows l v
    act-Flows sensor_looks l v =
        ((still l v).0, record { samples_sane = v.samples_sane; telemetry_sane = v.telemetry_sane })
    act-Flows proc_looks l v =
        ((still l v).0, record { samples_sane = v.samples_sane; telemetry_sane = v.telemetry_sane })
    act-Flows shuts_down l v =
        ((still l v).0, record { samples_sane = v.samples_sane; telemetry_sane = v.telemetry_sane })
    act-Flows stops_pump l v =
        ((still l v).0, record { samples_sane = v.samples_sane; telemetry_sane = v.telemetry_sane })

    -- Whatever the order of the steps, the messages that reach the publisher, followed by those still
    -- in the two queues, are a sublist of those that were under way at first and those that the sensor
    -- task offered since, as the processing hook turns them out.
    pub acts-published :
        (turns : List Act) (l : Line S P.Queue T.Queue)
        → LineSane l
        → let (t, l') = acts P T sensor proc turns l in
          Sublist (t.published ++ under_way l') (under_way l ++ map (process proc) t.offered)
          × LineSane l'
    unfolding acts
    acts-published [] l v = still l v
    acts-published (a ∷ rest) l v =
        let (t, l') = act P T sensor proc a l in
        let (u, l'') = acts P T sensor proc rest l' in
        let now = act-Flows a l v in
        let later = acts-published rest l' now.1 in
        (
          rw (map-append (process proc) t.offered u.offered) (
              Sublist-stages t.published u.published (under_way l) (under_way l') (under_way l'')
                (map (process proc) t.offered) (map (process proc) u.offered) now.0 later.0),
          later.1,
        )
