-- ===== src/Rtos/Loops/Shutdown.antt =====
-- What the loops of components/iot_rtos/src/iot_tasks.c and components/iot_mqtt/src/iot_mqtt.c do
-- once a shutdown has been requested.
use esp32_iot_products.Core.Types.{TelemetryMsg}
use esp32_iot_products.Rtos.Loops.{
  SensorHook, ProcHook, Line, Traffic, Act, senses, processes, pumps, shuts_down, stops_pump,
  received, q_len, act, acts, sensor_round, proc_round, hand_over, pump_round, quiet, blank_message,
  take_sample, sensor_looks, proc_looks, offer, sensor_look, proc_look, forward,
}
use esp32_iot_products.Rtos.Queue.Bounded.{BoundedQueue}
use esp32_iot_products.Prelude.{
  if◌then◌else◌, ◌≤◌, length, false, ℕ, not, Bool, ◌∙◌, List, none, refl, ◌∷◌, sym, ◌≡◌, true,
  Option, some, arith, [], ap, inr, inl, ◌+◌, length-append, ◌⊎◌, ◌||◌,
}
use esp32_iot_products.Core.Err.{ok, Err}
use esp32_iot_products.Prelude.Words.{add32}

abbrev one : Bool → ℕ
one b = if b then 1 else 0

module _ {S : Type 0} (P T : BoundedQueue TelemetryMsg q_len) where
  module _ (sensor : Option (SensorHook S)) (proc : Option ProcHook) where
    -- A step after the flag is set: each of the two tasks goes on for as long as it waits, and the
    -- numbering with the sensor task.
    abbrev Ebbs : Line S P.Queue T.Queue → Traffic × Line S P.Queue T.Queue → Type 0
    Ebbs l r =
        (length r.0.offered + one r.1.sensing ≤ one l.sensing)
        × (length r.0.taken + one r.1.processing ≤ one l.processing)
        × (((r.1.seq ≡ l.seq) × (r.1.sensing ≡ l.sensing))
            ⊎ ((l.sensing ≡ true) × (r.1.sensing ≡ false) × (r.1.seq ≡ add32 l.seq 1)))
        × (r.1.shutdown ≡ true)

    still-Ebbs : (l : Line S P.Queue T.Queue) → l.shutdown ≡ true → Ebbs l (quiet, l)
    still-Ebbs l off = (ground arith, ground arith, inl (refl, refl), off)

    offer-Ebbs :
        (e : Err) (msg : TelemetryMsg) (s : S) (l : Line S P.Queue T.Queue)
        → l.shutdown ≡ true
        → l.sensing ≡ true
        → Ebbs l (offer P T e msg (record l { seq = add32 l.seq 1; sensor = s; sensing = false }))
    unfolding offer
    offer-Ebbs ok msg s l off on = (ground (arith, on), ground arith, inr (on, refl, refl), off)
    offer-Ebbs _ msg s l off on = (ground (arith, on), ground arith, inr (on, refl, refl), off)

    forward-Ebbs :
        (r : Option TelemetryMsg) (q : P.Queue) (l : Line S P.Queue T.Queue)
        → l.shutdown ≡ true
        → l.processing ≡ true
        → Ebbs l (forward P T proc r (record l { sample_q = q; processing = false }))
    unfolding forward
    forward-Ebbs none q l off on = (ground arith, ground (arith, on), inl (refl, refl), off)
    forward-Ebbs (some x) q l off on = (ground arith, ground (arith, on), inl (refl, refl), off)

    hand_over-Ebbs :
        (r : Option TelemetryMsg) (q : T.Queue) (l : Line S P.Queue T.Queue)
        → l.shutdown ≡ true
        → Ebbs l (hand_over P T r (record l { telemetry_q = q }))
    unfolding hand_over
    hand_over-Ebbs none q l off = (ground arith, ground arith, inl (refl, refl), off)
    hand_over-Ebbs (some msg) q l off = (ground arith, ground arith, inl (refl, refl), off)

    Ebbs-if :
        (b : Bool) (l : Line S P.Queue T.Queue) (x : Traffic × Line S P.Queue T.Queue)
        → l.shutdown ≡ true
        → (b ≡ true → Ebbs l x)
        → Ebbs l (if not b then (quiet, l) else x)
    Ebbs-if true l x off k = k refl
    Ebbs-if false l x off k = still-Ebbs l off

    -- With the flag set, a task that does not wait does not begin to.
    look_lem : (b c : Bool) → c ≡ true → (b || not c) ≡ b
    look_lem b c h = ground (arith, h)

    act-Ebbs :
        (a : Act) (l : Line S P.Queue T.Queue)
        → l.shutdown ≡ true
        → Ebbs l (act P T sensor proc a l)
    unfolding act sensor_round proc_round pump_round sensor_look proc_look
    act-Ebbs (senses millis) l off =
        let (e, msg, s) = take_sample sensor (blank_message (add32 l.seq 1) millis) l.sensor in
        Ebbs-if l.sensing l _ off (offer-Ebbs e msg s l off)
    act-Ebbs processes l off =
        let (e, item, q) = P.recv l.sample_q in
        Ebbs-if l.processing l _ off (forward-Ebbs (received e item) q l off)
    act-Ebbs pumps l off =
        let (e, item, q) = T.recv l.telemetry_q in
        Ebbs-if l.pumping l _ off (λ h. hand_over-Ebbs (received e item) q l off)
    act-Ebbs sensor_looks l off =
        let same = look_lem l.sensing l.shutdown off in
        (ground (arith, same), ground arith, inl (refl, same), off)
    act-Ebbs proc_looks l off =
        let same = look_lem l.processing l.shutdown off in
        (ground arith, ground (arith, same), inl (refl, refl), off)
    act-Ebbs shuts_down l off = (ground arith, ground arith, inl (refl, refl), refl)
    act-Ebbs stops_pump l off = (ground arith, ground arith, inl (refl, refl), off)

    acts-Ebbs :
        (turns : List Act) (l : Line S P.Queue T.Queue)
        → l.shutdown ≡ true
        → Ebbs l (acts P T sensor proc turns l)
    unfolding acts
    acts-Ebbs [] l off = still-Ebbs l off
    acts-Ebbs (a ∷ rest) l off =
        let (t, l') = act P T sensor proc a l in
        let (u, l'') = acts P T sensor proc rest l' in
        let (o, p, n, off') = act-Ebbs a l off in
        let (o', p', n', off'') = acts-Ebbs rest l' off' in
        (
          ground (arith, o, o', length-append t.offered u.offered),
          ground (arith, p, p', length-append t.taken u.taken),
          numbered n n',
          off'',
        )
      where
        numbered :
            {s s' s'' : ℕ} {b b' b'' : Bool}
            → ((s' ≡ s) × (b' ≡ b)) ⊎ ((b ≡ true) × (b' ≡ false) × (s' ≡ add32 s 1))
            → ((s'' ≡ s') × (b'' ≡ b')) ⊎ ((b' ≡ true) × (b'' ≡ false) × (s'' ≡ add32 s' 1))
            → ((s'' ≡ s) × (b'' ≡ b)) ⊎ ((b ≡ true) × (b'' ≡ false) × (s'' ≡ add32 s 1))
        numbered (inl (e, f)) (inl (g, h)) = inl (g ∙ e, h ∙ f)
        numbered (inl (e, f)) (inr (on, out, g)) = inr (sym f ∙ on, out, g ∙ ap (λ z. add32 z 1) e)
        numbered (inr (on, out, e)) (inl (g, h)) = inr (on, h ∙ out, g ∙ e)
        numbered (inr (on, out, e)) (inr (on', out', g)) = ground (arith, out, on')

    -- Once the flag is set, whatever the order of the steps: the sensor task numbers and offers at most
    -- one more message, and the processing task takes at most one more from its queue, each only if it
    -- had passed its test of the flag before; and the flag stays set.
    pub acts-stopped :
        (turns : List Act) (l : Line S P.Queue T.Queue)
        → l.shutdown ≡ true
        → let (t, l') = acts P T sensor proc turns l in
          (length t.offered ≤ (if l.sensing then 1 else 0))
          × (length t.taken ≤ (if l.processing then 1 else 0))
          × ((l'.seq ≡ l.seq) ⊎ ((l.sensing ≡ true) × (l'.seq ≡ add32 l.seq 1)))
          × (l'.shutdown ≡ true)
    acts-stopped turns l off =
        let (o, p, n, off') = acts-Ebbs turns l off in
        (
          ground (arith, o),
          ground (arith, p),
          elim n [ inl (e, f) ↦ inl e | inr (on, out, e) ↦ inr (on, e) ],
          off',
        )
