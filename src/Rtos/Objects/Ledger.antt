-- ===== src/Rtos/Objects/Ledger.antt =====
-- Creating and deleting objects of one kind in any order: the ledger of a client of
-- components/iot_rtos/src/iot_rtos.c.
pub mod Balance
pub mod Queues
use esp32_iot_products.Rtos.Objects.{Kernel}
use esp32_iot_products.Rtos.Objects.Port.{Port}
use esp32_iot_products.Prelude.{ℕ, List, zero, none, ◌∷◌, Option, suc, some, []}
use esp32_iot_products.Core.Err.{Err}

-- The system, and the objects that the client has, the newest first.
pub record Ledger (P : Type 0) : Type 0 where
  pub kernel : Kernel
  pub held : List P

-- `deletes i` deletes the i-th object that the client has, if there is one.
pub data LedgerAct : Type 0 where
  creates : LedgerAct
  deletes : ℕ → LedgerAct

unfoldable pub add_new : {P : Type 0} → Option P → List P → List P
add_new none ps = ps
add_new (some p) ps = p ∷ ps

-- The i-th object, and the others.
take_at : {P : Type 0} → ℕ → List P → Option (P × List P)
take_at i [] = none
take_at zero (p ∷ ps) = some (p, ps)
take_at (suc i) (p ∷ ps) = elim (take_at i ps) [ none ↦ none | some (q, qs) ↦ some (q, p ∷ qs) ]

after_delete : {P : Type 0} → List P → Option (Unit {0} × Kernel) → Option (Ledger P)
after_delete ps none = none
after_delete ps (some (u, k)) = some (record { kernel = k; held = ps })

after_create : {P : Type 0} → List P → Option ((Err × Option P) × Kernel) → Option (Ledger P)
after_create held none = none
after_create held (some ((e, p), k)) = some (record { kernel = k; held = add_new p held })

module _ {P : Type 0} (port : Port P) where
  delete_one : Kernel → List P → Option (P × List P) → Option (Ledger P)
  delete_one k held none = some (record { kernel = k; held = held })
  delete_one k held (some (p, ps)) = after_delete ps (port.delete p k)

  pub ledger_act : LedgerAct → Ledger P → Option (Ledger P)
  ledger_act creates l = after_create l.held (port.create l.kernel)
  ledger_act (deletes i) l = delete_one l.kernel l.held (take_at i l.held)

  -- `none` once a handle is given back that is not held.
  pub ledger_acts : List LedgerAct → Option (Ledger P) → Option (Ledger P)
  ledger_acts [] l = l
  ledger_acts (a ∷ rest) none = none
  ledger_acts (a ∷ rest) (some l) = ledger_acts rest (ledger_act a l)
