-- ===== src/Rtos/Commands/Order.antt =====
-- The commands of components/iot_rtos/src/iot_tasks.c are handled once each, in the order in which
-- they were accepted.
use mathlib.Core.List.{append-nil, append_assoc}
use esp32_iot_products.Core.Err.{Err, ok, queue_full}
use esp32_iot_products.Core.Types.{CommandMsg}
use esp32_iot_products.Rtos.Loops.{received, received-ok}
use esp32_iot_products.Rtos.Commands.{
  command_len, Desk, DeskAct, arrives, handles, asks_shutdown, DeskLog, nothing_logged, run_hook,
  desk_act, desk_acts, enter, serve, cmd_round, looks, cmd_look,
}
use esp32_iot_products.Rtos.Queue.Bounded.{BoundedQueue}
use esp32_iot_products.Rtos.Loops.Pipeline.{received_cases}
use esp32_iot_products.Prelude.{
  ◌∙◌, Bool, [], inr, inl, none, ◌⊎◌, if◌then◌else◌, true, Option, refl, ◌++◌, ap, ◌∷◌, sym, ◌≡◌,
  List, some, false, arith, not, ◌||◌,
}

-- The hook, applied to commands in order.
pub apply_all : {C : Type 0} → Option (CommandMsg → C → C) → List CommandMsg → C → C
apply_all hook [] c = c
apply_all hook (cmd ∷ rest) c = apply_all hook rest (run_hook hook cmd c)

apply_all-append :
    {C : Type 0} (hook : Option (CommandMsg → C → C)) (xs ys : List CommandMsg) (c : C)
    → apply_all hook (xs ++ ys) c ≡ apply_all hook ys (apply_all hook xs c)
unfolding apply_all
apply_all-append hook [] ys c = refl
apply_all-append hook (x ∷ xs) ys c = apply_all-append hook xs ys (run_hook hook x c)

module _ {C : Type 0} (Q : BoundedQueue CommandMsg command_len)
    (hook : Option (CommandMsg → C → C)) where
  -- What a step of the log accounts for.
  abbrev Served : Desk C Q.Queue → DeskLog × Desk C Q.Queue → Type 0
  Served d r =
      (r.0.handled ++ Q.items r.1.command_q ≡ Q.items d.command_q ++ r.0.accepted)
      × (r.1.device ≡ apply_all hook r.0.handled d.device)
      × Q.IsSane r.1.command_q

  idle : (d : Desk C Q.Queue) → Q.IsSane d.command_q → Served d (nothing_logged, d)
  unfolding apply_all
  idle d v = (sym (append-nil (Q.items d.command_q)), refl, v)

  Served-if :
      (b : Bool) (d : Desk C Q.Queue) (x y : DeskLog × Desk C Q.Queue)
      → Served d x
      → Served d y
      → Served d (if b then x else y)
  Served-if true d x y u v = u
  Served-if false d x y u v = v

  enter-Served :
      (e : Err) (cmd : CommandMsg) (q : Q.Queue) (d : Desk C Q.Queue)
      → Q.IsSane d.command_q
      → ((e ≡ queue_full) × (q ≡ d.command_q))
        ⊎ ((e ≡ ok) × (Q.items q ≡ Q.items d.command_q ++ cmd ∷ []) × Q.IsSane q)
      → Served d (enter Q e cmd (record d { command_q = q }))
  unfolding enter apply_all
  enter-Served e cmd q d v (inl (full, same)) = rw (full, same) (idle d v)
  enter-Served e cmd q d v (inr (took, more, u)) = rw took (more, refl, u)

  serve-Served :
      (r : Option CommandMsg) (q : Q.Queue) (d : Desk C Q.Queue)
      → Q.IsSane d.command_q
      → ((r ≡ none) × (q ≡ d.command_q))
        ⊎ (((x : CommandMsg) × (r ≡ some x) × (Q.items d.command_q ≡ x ∷ Q.items q)) × Q.IsSane q)
      → Served d (serve Q hook r (record d { command_q = q; waiting = false }))
  unfolding serve apply_all
  serve-Served r q d v (inl (e, same)) = rw (e, same) (idle (record d { waiting = false }) v)
  serve-Served r q d v (inr (got, u)) =
      rw (got.1) (rw (got.2, append-nil (got.0 ∷ Q.items q)) refl, refl, u)

  send_cases :
      (cmd : CommandMsg) (q : Q.Queue)
      → Q.IsSane q
      → let (e, q') = Q.send cmd q in
        ((e ≡ queue_full) × (q' ≡ q))
        ⊎ ((e ≡ ok) × (Q.items q' ≡ Q.items q ++ cmd ∷ []) × Q.IsSane q')
  send_cases cmd q v = elim (Q.send-law cmd q v) [
    | inl (e, full, same) ↦ inl (e, same)
    | inr (e, room, more, u) ↦ inr (e, more, u)
  ]

  desk_act-Served :
      (a : DeskAct) (d : Desk C Q.Queue) → Q.IsSane d.command_q → Served d (desk_act Q hook a d)
  unfolding desk_act cmd_round cmd_look
  desk_act-Served (arrives cmd) d v =
      let (e, q) = Q.send cmd d.command_q in enter-Served e cmd q d v (send_cases cmd d.command_q v)
  desk_act-Served handles d v =
      let (e, item, q) = Q.recv d.command_q in
      Served-if (not d.waiting) d (nothing_logged, d)
        (serve Q hook (received e item) (record d { command_q = q; waiting = false })) (idle d v)
        (serve-Served (received e item) q d v (received_cases Q d.command_q v))
  desk_act-Served looks d v = idle d v
  desk_act-Served asks_shutdown d v = idle d v

  -- Whatever the order of arrivals and of the task's steps, the commands that the hook was given,
  -- followed by those that still wait, are those that waited at first followed by those that the queue
  -- accepted: each is handled once, in order. The device is left as the hook leaves it that is applied
  -- to the handled commands one after another.
  pub desk_acts-served :
      (turns : List DeskAct) (d : Desk C Q.Queue)
      → Q.IsSane d.command_q
      → let (t, d') = desk_acts Q hook turns d in
        (t.handled ++ Q.items d'.command_q ≡ Q.items d.command_q ++ t.accepted)
        × (d'.device ≡ apply_all hook t.handled d.device)
        × Q.IsSane d'.command_q
  unfolding desk_acts
  desk_acts-served [] d v = idle d v
  desk_acts-served (a ∷ rest) d v =
      let (t, d') = desk_act Q hook a d in
      let (u, d'') = desk_acts Q hook rest d' in
      let (kept, now, sane) = desk_act-Served a d v in
      let (kept', later, sane') = desk_acts-served rest d' sane in
      (
        append_assoc t.handled u.handled (Q.items d''.command_q)
            ∙ ap (λ xs. t.handled ++ xs) kept'
            ∙ sym (append_assoc t.handled (Q.items d'.command_q) u.accepted)
            ∙ ap (λ xs. xs ++ u.accepted) kept
            ∙ append_assoc (Q.items d.command_q) t.accepted u.accepted,
        later
            ∙ ap (apply_all hook u.handled) now
            ∙ sym (apply_all-append hook t.handled u.handled d.device),
        sane',
      )

module _ {C : Type 0} (Q : BoundedQueue CommandMsg command_len)
    (hook : Option (CommandMsg → C → C)) where
  enter-desk : (e : Err) (cmd : CommandMsg) (d : Desk C Q.Queue) → (enter Q e cmd d).1 ≡ d
  unfolding enter
  enter-desk ok cmd d = refl
  enter-desk _ cmd d = refl

  serve-device :
      (b : Bool) (r : Option CommandMsg) (x : CommandMsg) (q : Q.Queue) (d : Desk C Q.Queue)
      → b ≡ true
      → r ≡ some x
      → (if not b
          then (nothing_logged, d)
          else serve Q hook r (record d { command_q = q; waiting = false })).1.device
        ≡ run_hook hook x d.device
  unfolding serve
  serve-device false r x q d h e = ground (arith, h)
  serve-device true r x q d h e =
      ap (λ o. (serve Q hook o (record d { command_q = q; waiting = false })).1.device) e

  -- The item that a queue with one item hands over.
  received_only :
      (q : Q.Queue) (x : CommandMsg)
      → Q.IsSane q
      → Q.items q ≡ x ∷ []
      → received (Q.recv q).0 (Q.recv q).1 ≡ some x
  received_only q x v only = elim (Q.recv-law q v) [
    | inl (e, i, empty, same) ↦ ground (arith, only, empty)
    | inr (e, got, u) ↦
        received-ok _ _ e
        ∙ got.1
        ∙ ap (λ xs. elim xs as (λ z. Option CommandMsg) [ [] ↦ none | y ∷ ys ↦ some y ])
            (sym got.2 ∙ only)
  ]

  -- A command that arrives while none waits and no shutdown has been requested is run when the task
  -- has next looked at the flag and waited.
  pub desk_acts-one :
      (cmd : CommandMsg) (d : Desk C Q.Queue)
      → Q.IsSane d.command_q
      → Q.items d.command_q ≡ []
      → d.shutdown ≡ false
      → (desk_acts Q hook (arrives cmd ∷ looks ∷ handles ∷ []) d).1.device
        ≡ run_hook hook cmd d.device
  unfolding desk_acts desk_act cmd_round cmd_look
  desk_acts-one cmd d v empty on = elim (Q.send-law cmd d.command_q v) [
    | inl (e, full, same) ↦ ground (arith, full, empty)
    | inr (e, room, more, u) ↦
        let (c, q) = Q.send cmd d.command_q in
        let d' : Desk C Q.Queue = record d { command_q = q } in
        ap (λ z. (cmd_round Q hook (cmd_look Q z)).1.device) (enter-desk c cmd d')
        ∙ serve-device (d.waiting || not d.shutdown) _ cmd (Q.recv q).2 (cmd_look Q d')
            (ground (arith, on)) (received_only q cmd u (more ∙ ap (λ xs. xs ++ cmd ∷ []) empty))
  ]
