-- ===== src/Rtos/Start/Order.antt =====
-- What iot_tasks_start of components/iot_rtos/src/iot_tasks.c returns, and when tasks count as started.
use mathlib.Core.Path.{ap₂}
use mathlib.Core.List.{map-append}
use esp32_iot_products.Core.Err.{Err, ok}
use esp32_iot_products.Rtos.Start.{
  Slot, Start, if_ok, make, make_all, tasks_start, objects, tasks, give, slot_num, sample_q,
  telemetry_q, command_q, sensor_isr_sem, sample_lock, system_evt, sensor_task, proc_task, cmd_task,
  diag_task, wdt_task, start_all,
}
use esp32_iot_products.Prelude.{
  ◌∷◌, ◌++◌, ap, List, ℕ, ◌∙◌, map, refl, ◌≡◌, [], false, true, Bool, some, ◌+◌, sym, arith,
}
use esp32_iot_products.UseCase.Types.{set_at}

-- The first code that is not IOT_OK, or IOT_OK.
or_else : Err → Err → Err
or_else ok e = e
or_else d e = d

pub first_failure : List Err → Err
first_failure [] = ok
first_failure (e ∷ es) = or_else e (first_failure es)

or_else_assoc : (a b c : Err) → or_else a (or_else b c) ≡ or_else (or_else a b) c
unfolding or_else
or_else_assoc ok b c = refl
or_else_assoc _ b c = refl

or_else-ok : (e : Err) → or_else e ok ≡ e
unfolding or_else
or_else-ok ok = refl
or_else-ok _ = refl

first_failure-append :
    (es fs : List Err) → first_failure (es ++ fs) ≡ or_else (first_failure es) (first_failure fs)
unfolding first_failure or_else
first_failure-append [] fs = refl
first_failure-append (e ∷ es) fs =
    ap (or_else e) (first_failure-append es fs)
    ∙ or_else_assoc e (first_failure es) (first_failure fs)

if_ok-code :
    (r : Err × Start) (next : Start → Err × Start) → (if_ok r next).0 ≡ or_else (r.0) (next (r.1)).0
unfolding if_ok or_else
if_ok-code (ok, s) next = refl
if_ok-code (_, s) next = refl

-- A condition that the state keeps.
if_ok-keeps :
    (C : Start → Type 0) (r : Err × Start) (next : Start → Err × Start)
    → C (r.1)
    → ((s : Start) → C s → C (next s).1)
    → C (if_ok r next).1
unfolding if_ok
if_ok-keeps C (ok, s) next v keep = keep s v
if_ok-keeps C (_, s) next v keep = v

if_ok-same : (e : Err) (s : Start) (f : Start → Start) → (if_ok (e, s) (λ t. (ok, f t))).0 ≡ e
unfolding if_ok
if_ok-same ok s f = refl
if_ok-same _ s f = refl

pub is_ok : Err → Bool
is_ok ok = true
is_ok _ = false

-- Only the last step sets the flag.
if_ok-flag :
    (r : Err × Start) (next : Start → Err × Start)
    → (r.1).started ≡ false
    → ((s : Start) → s.started ≡ false → (next s).1.started ≡ is_ok (next s).0)
    → (if_ok r next).1.started ≡ is_ok (if_ok r next).0
unfolding if_ok is_ok
if_ok-flag (ok, s) next v ends = ends s v
if_ok-flag (_, s) next v ends = v

-- The members in the order in which the source fills them: three queues, a semaphore, a mutex, the
-- event group and five tasks.
pub creation_order : List Slot
creation_order =
    sample_q ∷ telemetry_q ∷ command_q ∷ sensor_isr_sem ∷ sample_lock ∷ system_evt ∷ sensor_task
    ∷ proc_task ∷ cmd_task ∷ diag_task ∷ wdt_task ∷ []

created_all : objects ++ tasks ≡ creation_order
unfolding objects tasks creation_order
created_all = refl

module _ (made : Slot → Err × ℕ) where
  pub code_of : Slot → Err
  code_of x = (made x).0

  make-code : (x : Slot) (s : Start) → (make made x s).0 ≡ code_of x
  unfolding make code_of
  make-code x s = if_ok-same (made x).0 s _

  make-started : (x : Slot) (s : Start) → s.started ≡ false → (make made x s).1.started ≡ false
  unfolding make
  make-started x s v = if_ok-keeps (λ t. t.started ≡ false) ((made x).0, s) _ v (λ t u. u)

  make_all-started :
      (xs : List Slot) (s : Start) → s.started ≡ false → (make_all made xs s).1.started ≡ false
  unfolding make_all
  make_all-started [] s v = v
  make_all-started (x ∷ xs) s v =
      if_ok-keeps (λ t. t.started ≡ false) (make made x s) (make_all made xs) (make-started x s v)
        (make_all-started xs)

  make_all-code :
      (xs : List Slot) (s : Start) → (make_all made xs s).0 ≡ first_failure (map code_of xs)
  unfolding make_all first_failure
  make_all-code [] s = refl
  make_all-code (x ∷ xs) s =
      if_ok-code (make made x s) (make_all made xs)
      ∙ ap₂ or_else (make-code x s) (make_all-code xs (make made x s).1)

  first_call : (s : Start) → s.started ≡ false → tasks_start made s ≡ start_all made s
  unfolding tasks_start
  first_call s v = ground (arith, v)

  start_all-code : (s : Start) → (start_all made s).0 ≡ first_failure (map code_of creation_order)
  unfolding start_all
  start_all-code s =
      let made_objects = make_all made objects s in
      let made_tasks = make_all made tasks (give made_objects.1) in
      if_ok-code made_objects _
      ∙ ap₂ or_else (make_all-code objects s) (
          if_ok-code made_tasks _
          ∙ or_else-ok made_tasks.0
          ∙ make_all-code tasks (give made_objects.1))
      ∙ sym (
          ap (λ xs. first_failure (map code_of xs)) (sym created_all)
          ∙ ap first_failure (map-append code_of objects tasks)
          ∙ first_failure-append (map code_of objects) (map code_of tasks))

  start_all-flag :
      (s : Start) → s.started ≡ false → (start_all made s).1.started ≡ is_ok (start_all made s).0
  unfolding start_all give is_ok
  start_all-flag s v = if_ok-flag (make_all made objects s) _ (make_all-started objects s v) (λ t u.
      if_ok-flag (make_all made tasks (give t)) _ (make_all-started tasks (give t) u) (λ r w. refl))

  -- On the first call the code returned is that of the first creation that fails, in the order
  -- sample queue, telemetry queue, command queue, semaphore of the sensor task, mutex, event group,
  -- sensor task, processing task, command task, diagnosis task, watchdog task, or IOT_OK; and the tasks count as started exactly when it is IOT_OK.
  pub tasks_start_lem :
      (s : Start)
      → s.started ≡ false
      → let (e, s') = tasks_start made s in
        (e ≡ first_failure (map code_of creation_order)) × (s'.started ≡ is_ok e)
  tasks_start_lem s v = rw (first_call s v) (start_all-code s, start_all-flag s v)

  fill_all : List Slot → Start → Start
  fill_all [] s = s
  fill_all (x ∷ xs) s = fill_all xs (record s { ctx = set_at s.ctx (slot_num x) (some (made x).1) })

  make_all-filled :
      (xs : List Slot) (s : Start)
      → ((y : Slot) → (made y).0 ≡ ok)
      → make_all made xs s ≡ (ok, fill_all xs s)
  unfolding make_all make fill_all if_ok
  make_all-filled [] s good = refl
  make_all-filled (x ∷ xs) s good = rw (good x) (make_all-filled xs _ good)

  start_all-filled :
      (s : Start)
      → ((y : Slot) → (made y).0 ≡ ok)
      → start_all made s
        ≡ (ok, record (fill_all tasks (give (fill_all objects s))) { started = true })
  unfolding start_all if_ok
  start_all-filled s good =
      rw (make_all-filled objects s good, make_all-filled tasks (give (fill_all objects s)) good)
        refl

  filled :
      (x : Slot) (s : Start)
      → (fill_all tasks (give (fill_all objects s))).ctx (slot_num x) ≡ some (made x).1
  unfolding fill_all tasks objects give slot_num
  filled sample_q s = refl
  filled _ s = refl

  -- Where every creation succeeds, each member of the context has the handle of its own creation, and
  -- the semaphore of the sensor task has been given once more.
  pub tasks_start-filled :
      (s : Start) (x : Slot)
      → s.started ≡ false
      → ((y : Slot) → (made y).0 ≡ ok)
      → let (e, s') = tasks_start made s in
        (s'.ctx (slot_num x) ≡ some (made x).1) × (s'.gives ≡ s.gives + 1)
  unfolding fill_all tasks objects give
  tasks_start-filled s x v good = rw (first_call s v, start_all-filled s good) (filled x s, refl)

  -- Where every creation succeeds, so does the call.
  pub tasks_start-succeeds :
      (s : Start)
      → s.started ≡ false
      → ((y : Slot) → (made y).0 ≡ ok)
      → ((tasks_start made s).0 ≡ ok) × ((tasks_start made s).1.started ≡ true)
  tasks_start-succeeds s v good = rw (first_call s v, start_all-filled s good) (refl, refl)
