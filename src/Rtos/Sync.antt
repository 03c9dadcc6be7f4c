-- ===== src/Rtos/Sync.antt =====
-- Mutexes, semaphores and the clock of components/iot_rtos/src/iot_rtos.c. A handle is NULL or an object
-- of the system.
pub mod Clock
use esp32_iot_products.Core.Err.{Err, ok, invalid_arg, timeout}
use esp32_iot_products.Prelude.Words.{u32_mod}
use esp32_iot_products.Prelude.{
  ℕ, ◌%◌, some, ◌+◌, false, Bool, none, if◌then◌else◌, ◌/◌, Option, ◌*◌,
}

-- The semaphore of FreeRTOS or Windows: a wait that times out, or leaves the semaphore taken once
-- more, and a release.
pub record KernelSemaphore (S : Type 0) : Type 0 where
  pub wait : S → Option S
  pub release : S → S

module _ {S : Type 0} (sem : KernelSemaphore S) where
  -- `iot_sem_take` of the ESP and Windows builds.
  pub sem_take : Option S → Err × Option S
  sem_take none = (invalid_arg, none)
  sem_take (some s) = elim (sem.wait s) [ none ↦ (timeout, some s) | some s' ↦ (ok, some s') ]

  -- `iot_mutex_lock` of these builds; a mutex is a semaphore of at most one.
  pub mutex_lock : Option S → Err × Option S
  mutex_lock none = (invalid_arg, none)
  mutex_lock (some m) = elim (sem.wait m) [ none ↦ (timeout, some m) | some m' ↦ (ok, some m') ]

  pub sem_give : Option S → Option S
  sem_give none = none
  sem_give (some s) = some (sem.release s)

  pub mutex_unlock : Option S → Option S
  mutex_unlock none = none
  mutex_unlock (some m) = some (sem.release m)

  -- `wakes` is what FreeRTOS writes, `hp` tells that `hp_woken` is not NULL; the second part is what
  -- `*hp_woken` becomes, if it is written.
  pub sem_give_from_isr : Bool → Bool → Option S → Option S × Option Bool
  sem_give_from_isr wakes hp none = (none, if hp then some false else none)
  sem_give_from_isr wakes hp (some s) = (some (sem.release s), if hp then some wakes else none)

-- The POSIX builds, which do not look at the timeout; `got` tells that the wait returns 0.
pub sem_take_posix : {S : Type 0} → Bool → Option S → Err
sem_take_posix got none = invalid_arg
sem_take_posix got (some s) = if got then ok else timeout

pub mutex_lock_posix : {S : Type 0} → Bool → Option S → Err
mutex_lock_posix got none = invalid_arg
mutex_lock_posix got (some m) = if got then ok else Err.fail

-- `ts` of `iot_task_delay_ms` for a POSIX host: seconds and nanoseconds.
unfoldable pub delay_span : ℕ → ℕ × ℕ
delay_span ms = (ms / 1000, ms % 1000 * 1000000)

-- `iot_millis` for a POSIX host, of the seconds and nanoseconds that the clock gives.
unfoldable pub millis_posix : ℕ → ℕ → ℕ
millis_posix sec nsec = (sec * 1000 + nsec / 1000000) % u32_mod
