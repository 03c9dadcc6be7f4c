-- ===== src/Rtos/Objects/Kinds.antt =====
-- The kinds of objects that are one handle, and the timers, of components/iot_rtos/src/iot_rtos.c.
use esp32_iot_products.Core.Err.{Err, ok, invalid_arg, no_mem}
use esp32_iot_products.Rtos.Objects.{
  Kernel, missing, request, mutex_create, pure, ◌>>◌, close_if, close, block_create,
  sem_create_posix, task_create_posix, ◌>>=◌, task_create_esp, task_create_windows,
}
use esp32_iot_products.Rtos.Objects.Port.{
  Sane, is_handle, Created, turned_down, handed_out, request-law, >>=-some, close_if-law, Apart,
  Deletes, Port, rejected-Created,
}
use esp32_iot_products.Prelude.{
  none, true, ◌≢◌, false, ◌||◌, Bool, [], refl, if◌then◌else◌, ◌≡◌, some, Option, List, suc, ◌≤◌, ℕ,
  ◌∷◌, arith, inr, Bool-cases, inl, not, ◌∙◌, ltb,
}

abbrev pub handle_parts : ℕ → List (Option ℕ)
handle_parts x = some x ∷ []

-- A block that is freed again leaves the system as it was.
pub freed-Created :
    {P : Type 0} (parts : P → List (Option ℕ)) (err : Err) (o : Option ℕ) (k k' : Kernel)
    → err ≢ ok
    → Sane k
    → k.asked ≤ k'.asked
    → ((h : ℕ) → k'.live h ≡ (is_handle o h || k.live h))
    → ((h : ℕ) → is_handle o h ≡ true → h ≡ k.asked)
    → (r : (Err × Option P) × Kernel) × ((close_if o >> pure (err, none)) k' ≡ some r)
      × Created parts k r
freed-Created parts err o k k' bad sane more l f =
    let (k'', e, a, l') = close_if-law o k' (λ h own. ground (arith, own, l h)) in
    (
      ((err, none), k''),
      >>=-some (close_if o) (λ u. pure (err, none)) k' k'' tt e,
      turned_down err k'' bad (omega (arith, a, more))
          (λ h. ground (arith, l' h, l h, f h, sane h)),
    )

module _ (grants : ℕ → Bool) where
  -- One request, and one handle.
  handed-Created :
      (o : Option ℕ) (k k' : Kernel)
      → k'.asked ≡ suc k.asked
      → ((h : ℕ) → k'.live h ≡ (is_handle o h || k.live h))
      → ((h : ℕ) → is_handle o h ≡ true → h ≡ k.asked)
      → Created handle_parts k ((if missing o then no_mem else ok, o), k')
  handed-Created none k k' a l f =
      turned_down no_mem k' (λ z. ground (arith, z)) (omega (arith, a)) l
  handed-Created (some x) k k' a l f =
      handed_out x k' ((λ h e. refl), tt) (omega (arith, a)) (λ h. ground (arith, l h))
        (λ h e. ground (arith, e, f h, a))

  -- A request behind a test of the arguments.
  guarded-Created :
      (bad : Bool) (k : Kernel)
      → Sane k
      → (r : (Err × Option ℕ) × Kernel) × ((if bad
              then pure (invalid_arg, none)
              else (request grants >>= λ h. pure (if missing h then no_mem else ok, h)))
            k
          ≡ some r)
        × Created handle_parts k r
  guarded-Created true k sane = (
    ((invalid_arg, none), k),
    refl,
    rejected-Created handle_parts invalid_arg k (λ z. ground (arith, z)),
  )
  guarded-Created false k sane =
      let (o, k', e, a, l, f) = request-law grants k in
      (
        ((if missing o then no_mem else ok, o), k'),
        >>=-some (request grants) _ k k' o e,
        handed-Created o k k' a l f,
      )

  pub mutex_create-law :
      (out : Bool) (k : Kernel)
      → Sane k
      → (r : (Err × Option ℕ) × Kernel) × (mutex_create grants out k ≡ some r)
        × Created handle_parts k r
  unfolding mutex_create
  mutex_create-law out k sane = guarded-Created (not out) k sane

  pub task_create_esp-law :
      (fn out : Bool) (stack_bytes : ℕ) (k : Kernel)
      → Sane k
      → (r : (Err × Option ℕ) × Kernel) × (task_create_esp grants fn out stack_bytes k ≡ some r)
        × Created handle_parts k r
  unfolding task_create_esp
  task_create_esp-law fn out stack_bytes k sane =
      guarded-Created (not fn || not out || ltb stack_bytes 1024) k sane

  pub task_create_windows-law :
      (fn out : Bool) (k : Kernel)
      → Sane k
      → (r : (Err × Option ℕ) × Kernel) × (task_create_windows grants fn out k ≡ some r)
        × Created handle_parts k r
  unfolding task_create_windows
  task_create_windows-law fn out k sane = guarded-Created (not fn || not out) k sane

  -- A block that has been asked for is freed again, or handed out.
  settled-Created :
      (err : Err) (bad : Bool) (o : Option ℕ) (k k' : Kernel)
      → err ≢ ok
      → Sane k
      → k'.asked ≡ suc k.asked
      → ((h : ℕ) → k'.live h ≡ (is_handle o h || k.live h))
      → ((h : ℕ) → is_handle o h ≡ true → h ≡ k.asked)
      → (bad ≡ false → missing o ≡ false)
      → (r : (Err × Option ℕ) × Kernel) × ((if bad
              then (close_if o >> pure (err, none))
              else pure (ok, o))
            k'
          ≡ some r)
        × Created handle_parts k r
  settled-Created err true o k k' wrong sane a l f kept =
      freed-Created handle_parts err o k k' wrong sane (omega (arith, a)) l f
  settled-Created err false none k k' wrong sane a l f kept = absurd (ground (arith, kept refl))
  settled-Created err false (some x) k k' wrong sane a l f kept =
      (((ok, some x), k'), refl, handed-Created (some x) k k' a l f)

  pub block_create-law :
      (out : Bool) (k : Kernel)
      → Sane k
      → (r : (Err × Option ℕ) × Kernel) × (block_create grants out k ≡ some r)
        × Created handle_parts k r
  unfolding block_create
  block_create-law out k sane =
      let (o, k', e, a, l, f) = request-law grants k in
      let (r, e', c) =
        settled-Created no_mem (not out || missing o) o k k' (λ z. ground (arith, z)) sane a l f
          (λ z. ground (arith, z)) in
      (r, >>=-some (request grants) _ k k' o e ∙ e', c)

  pub sem_create_posix-law :
      (made out : Bool) (k : Kernel)
      → Sane k
      → (r : (Err × Option ℕ) × Kernel) × (sem_create_posix grants made out k ≡ some r)
        × Created handle_parts k r
  unfolding sem_create_posix
  sem_create_posix-law made out k sane =
      let (o, k', e, a, l, f) = request-law grants k in
      elim (Bool-cases (not out || missing o)) [
        | inl none_left ↦
            let (r, e', c) =
              freed-Created handle_parts no_mem o k k' (λ z. ground (arith, z)) sane
                (omega (arith, a)) l f in
            (r, >>=-some (request grants) _ k k' o e ∙ rw none_left e', c)
        | inr good ↦
            let (r, e', c) =
              settled-Created Err.fail (not made) o k k' (λ z. ground (arith, z)) sane a l f
                (λ z. ground (arith, good)) in
            (r, >>=-some (request grants) _ k k' o e ∙ rw good e', c)
      ]

  pub task_create_posix-law :
      (started fn out : Bool) (k : Kernel)
      → Sane k
      → (r : (Err × Option ℕ) × Kernel) × (task_create_posix grants started fn out k ≡ some r)
        × Created handle_parts k r
  unfolding task_create_posix
  task_create_posix-law started fn out k sane =
      let (o, k', e, a, l, f) = request-law grants k in
      elim (Bool-cases (not fn || not out || missing o)) [
        | inl none_left ↦
            let (r, e', c) =
              freed-Created handle_parts invalid_arg o k k' (λ z. ground (arith, z)) sane
                (omega (arith, a)) l f in
            (r, >>=-some (request grants) _ k k' o e ∙ rw none_left e', c)
        | inr good ↦
            let (r, e', c) =
              settled-Created no_mem (not started) o k k' (λ z. ground (arith, z)) sane a l f
                (λ z. ground (arith, good)) in
            (r, >>=-some (request grants) _ k k' o e ∙ rw good e', c)
      ]

  pub handle_delete-law : (x : ℕ) → Apart (handle_parts x) → Deletes (handle_parts x) (close x)
  unfolding close_if
  handle_delete-law x apart = close_if-law (some x)

  -- The mutexes of FreeRTOS and Windows, and those of a POSIX host, its event groups and its semaphores.
  abbrev pub mutex_port : Bool → Port ℕ
  mutex_port out = record {
    create = mutex_create grants out;
    delete = close;
    parts = handle_parts;
    create-law = mutex_create-law out;
    delete-law = handle_delete-law;
  }

  abbrev pub block_port : Bool → Port ℕ
  block_port out = record (mutex_port out) {
    create = block_create grants out;
    create-law = block_create-law out;
  }

  abbrev pub sem_port : Bool → Bool → Port ℕ
  sem_port made out = record (mutex_port out) {
    create = sem_create_posix grants made out;
    create-law = sem_create_posix-law made out;
  }
