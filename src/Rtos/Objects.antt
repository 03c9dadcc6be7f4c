-- ===== src/Rtos/Objects.antt =====
-- Creating and deleting the objects of components/iot_rtos/src/iot_rtos.c, in its three builds. The
-- system under it hands out handles and blocks of memory, or refuses to.
pub mod Windows
pub mod Timer
pub mod Port
pub mod Ledger
pub mod Kinds
use esp32_iot_products.UseCase.Types.{set_at}
use esp32_iot_products.Core.Err.{Err, ok, invalid_arg, no_mem}
use esp32_iot_products.Prelude.{
  suc, ℕ, if◌then◌else◌, not, true, Bool, some, Option, false, none, ◌||◌, ltb,
}

-- What the system has handed out: the number of requests so far, which is the next handle, and the
-- handles that have not been given back.
pub record Kernel : Type 0 where
  pub asked : ℕ
  pub live : ℕ → Bool

-- `none` is a fault: a handle is given back that is not held.
abbrev pub M : Type 0 → Type 0
M A = Kernel → Option (A × Kernel)

abbrev pub pure : {A : Type 0} → A → M A
pure a k = some (a, k)

infixl 5 ◌>>=◌ ◌>>◌
abbrev pub ◌>>=◌ : {A B : Type 0} → M A → (A → M B) → M B
◌>>=◌ m f k = elim (m k) [ none ↦ none | some (a, k') ↦ f a k' ]

abbrev pub ◌>>◌ : {B : Type 0} → M (Unit {0}) → M B → M B
m >> n = m >>= λ _. n

-- `CloseHandle(h)`, `free(p)`, `vSemaphoreDelete(h)`, …
unfoldable pub close : ℕ → M (Unit {0})
close h k = if k.live h then some (tt, record k { live = set_at k.live h false }) else none

-- `if (h != NULL) CloseHandle(h);` and `free(p)`, which allows NULL.
unfoldable pub close_if : Option ℕ → M (Unit {0})
close_if none = pure tt
close_if (some h) = close h

abbrev pub missing : {A : Type 0} → Option A → Bool
missing none = true
missing (some h) = false

-- The n-th request succeeds exactly if `grants n`.
module _ (grants : ℕ → Bool) where
  -- `calloc`, `CreateMutex`, `xSemaphoreCreateBinary`, …: NULL, or a new handle.
  unfoldable pub request : M (Option ℕ)
  request k =
      if grants k.asked
      then some (some k.asked, record { asked = suc k.asked; live = set_at k.live k.asked true })
      else some (none, record k { asked = suc k.asked })

  -- `iot_mutex_create` of FreeRTOS and of Windows; `out` tells that the pointer is not NULL.
  -- A semaphore is made alike.
  unfoldable pub mutex_create : Bool → M (Err × Option ℕ)
  mutex_create out =
      if not out
      then pure (invalid_arg, none)
      else do h ← request; pure (if missing h then no_mem else ok, h)

  -- `iot_event_create` and `iot_mutex_create` for a POSIX host: the block is asked for first.
  unfoldable pub block_create : Bool → M (Err × Option ℕ)
  block_create out = do
    h ← request
    if not out || missing h then close_if h >> pure (no_mem, none) else pure (ok, h)

  -- `iot_sem_counting_create` for a POSIX host; `made` tells that `sem_init` returns 0.
  unfoldable pub sem_create_posix : Bool → Bool → M (Err × Option ℕ)
  sem_create_posix made out = do
    s ← request
    if not out || missing s
        then close_if s >> pure (no_mem, none)
        else if not made
        then close_if s >> pure (Err.fail, none)
        else pure (ok, s)

  -- `iot_task_create` for a POSIX host; `started` tells that `pthread_create` returns 0. `fn` and `out` tell
  -- that the pointers are not NULL.
  unfoldable pub task_create_posix : Bool → Bool → Bool → M (Err × Option ℕ)
  task_create_posix started fn out = do
    th ← request
    if not fn || not out || missing th
        then close_if th >> pure (invalid_arg, none)
        else if not started
        then close_if th >> pure (no_mem, none)
        else pure (ok, th)

  -- `iot_task_create` of the ESP build, which refuses a stack below 1 KB.
  unfoldable pub task_create_esp : Bool → Bool → ℕ → M (Err × Option ℕ)
  task_create_esp fn out stack_bytes =
      if not fn || not out || ltb stack_bytes 1024
      then pure (invalid_arg, none)
      else do h ← request; pure (if missing h then no_mem else ok, h)

  -- `iot_task_create` for a Windows host.
  unfoldable pub task_create_windows : Bool → Bool → M (Err × Option ℕ)
  task_create_windows fn out =
      if not fn || not out
      then pure (invalid_arg, none)
      else do h ← request; pure (if missing h then no_mem else ok, h)
