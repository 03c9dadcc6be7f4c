-- ===== src/Rtos/Commands.antt =====
-- The loop of cmd_task in components/iot_rtos/src/iot_tasks.c, step by step, and the senders of
-- `command_q`: the MQTT and Bluetooth handlers, which do not wait. The task looks at the flag in one
-- step, and waits; the end of the wait and what follows are another, before which the flag may be set.
pub mod Order
use esp32_iot_products.Core.Err.{Err, ok}
use esp32_iot_products.Core.Types.{CommandMsg}
use esp32_iot_products.Rtos.Loops.{received}
use esp32_iot_products.Rtos.Queue.Bounded.{BoundedQueue}
use esp32_iot_products.Prelude.{
  Bool, [], none, ℕ, if◌then◌else◌, true, Option, ◌++◌, ◌∷◌, List, some, not, false, ◌||◌,
}

abbrev pub command_len : ℕ
command_len = 8

-- `s_shutdown`, `command_q`, and what the command hook acts on; and whether the task has passed the
-- test of the flag and waits.
pub record Desk (C Q : Type 0) : Type 0 where
  pub shutdown : Bool
  pub waiting : Bool
  pub command_q : Q
  pub device : C

-- A command that a handler sends, a step of the task, or the request to shut down.
pub data DeskAct : Type 0 where
  arrives : CommandMsg → DeskAct
  looks handles asks_shutdown : DeskAct

-- The commands that the queue took, and those that the task gave to the hook.
pub record DeskLog : Type 0 where
  pub accepted : List CommandMsg
  pub handled : List CommandMsg

abbrev pub nothing_logged : DeskLog
nothing_logged = record { accepted = []; handled = [] }

-- `iot_cmd_hook_t`, whose code is ignored; NULL does nothing.
unfoldable pub run_hook : {C : Type 0} → Option (CommandMsg → C → C) → CommandMsg → C → C
run_hook none cmd c = c
run_hook (some hook) cmd c = hook cmd c

module _ {C : Type 0} (Q : BoundedQueue CommandMsg command_len) where
  -- What the code of `iot_queue_send` says of the command.
  enter : Err → CommandMsg → Desk C Q.Queue → DeskLog × Desk C Q.Queue
  enter ok cmd d = (record nothing_logged { accepted = cmd ∷ [] }, d)
  enter _ cmd d = (nothing_logged, d)

  -- What follows the reception of a command, if there is one.
  serve :
      Option (CommandMsg → C → C) → Option CommandMsg → Desk C Q.Queue → DeskLog × Desk C Q.Queue
  serve hook none d = (nothing_logged, d)
  serve hook (some cmd) d = (
    record nothing_logged { handled = cmd ∷ [] },
    record d { device = run_hook hook cmd d.device },
  )

  -- The test of the flag; a task that waits already does not come to it.
  cmd_look : Desk C Q.Queue → Desk C Q.Queue
  cmd_look d = record d { waiting = d.waiting || not d.shutdown }

  -- From the end of the wait for a command on.
  cmd_round : Option (CommandMsg → C → C) → Desk C Q.Queue → DeskLog × Desk C Q.Queue
  cmd_round hook d =
      let (e, item, q) = Q.recv d.command_q in
      if not d.waiting
      then (nothing_logged, d)
      else serve hook (received e item) (record d { command_q = q; waiting = false })

  pub desk_act : Option (CommandMsg → C → C) → DeskAct → Desk C Q.Queue → DeskLog × Desk C Q.Queue
  desk_act hook (arrives cmd) d =
      let (e, q) = Q.send cmd d.command_q in enter e cmd (record d { command_q = q })
  desk_act hook looks d = (nothing_logged, cmd_look d)
  desk_act hook handles d = cmd_round hook d
  desk_act hook asks_shutdown d = (nothing_logged, record d { shutdown = true })

  pub desk_acts :
      Option (CommandMsg → C → C) → List DeskAct → Desk C Q.Queue → DeskLog × Desk C Q.Queue
  desk_acts hook [] d = (nothing_logged, d)
  desk_acts hook (a ∷ rest) d =
      let (t, d') = desk_act hook a d in
      let (u, d'') = desk_acts hook rest d' in
      (record { accepted = t.accepted ++ u.accepted; handled = t.handled ++ u.handled }, d'')
