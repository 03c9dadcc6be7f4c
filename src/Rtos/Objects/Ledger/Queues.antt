-- ===== src/Rtos/Objects/Ledger/Queues.antt =====
-- The queues that a client of components/iot_rtos/src/iot_rtos.c has on a Windows host.
use esp32_iot_products.Rtos.Objects.{Kernel}
use esp32_iot_products.Rtos.Objects.Port.{Sane}
use esp32_iot_products.Rtos.Objects.Windows.{QueueParts}
use esp32_iot_products.Rtos.Objects.Ledger.{Ledger, LedgerAct, ledger_acts}
use esp32_iot_products.Rtos.Objects.Windows.Whole.{queue_port}
use esp32_iot_products.Rtos.Objects.Ledger.Balance.{owns, ledger_acts_lem}
use esp32_iot_products.Prelude.{◌≡◌, false, ◌||◌, List, Bool, true, ℕ, [], some}

-- When the system counts on beyond the handles that it holds: whatever the order in which a client
-- creates and deletes queues, and whatever the system grants it, no handle is given back twice,
-- and the system holds exactly the handles that it held at first and those of the queues that the
-- client has: nothing is lost by a creation that fails half way.
pub ledger_acts-queue_port :
    (grants : ℕ → Bool) (len item_size : ℕ) (out : Bool) (acts : List LedgerAct) (k : Kernel)
    → Sane k
    → let port = queue_port grants len item_size out in
      (l : Ledger QueueParts) × (ledger_acts port acts (some (record { kernel = k; held = [] }))
        ≡ some l)
      × ((h : ℕ) → l.kernel.live h ≡ (owns port l.held h || k.live h))
      × ((h : ℕ) → owns port l.held h ≡ true → k.live h ≡ false)
ledger_acts-queue_port grants len item_size out acts k sane =
    ledger_acts_lem (queue_port grants len item_size out) acts k sane
