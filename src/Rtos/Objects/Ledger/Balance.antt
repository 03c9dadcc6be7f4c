-- ===== src/Rtos/Objects/Ledger/Balance.antt =====
-- That no object of components/iot_rtos/src/iot_rtos.c is lost or given back twice.
use esp32_iot_products.Rtos.Objects.Port.{
  Sane, any_handle, Apart, Port, Created, turned_down, handed_out,
}
use esp32_iot_products.Rtos.Objects.Ledger.{
  Ledger, take_at, LedgerAct, creates, deletes, add_new, ledger_act, ledger_acts, delete_one,
  after_delete, after_create,
}
use esp32_iot_products.Prelude.{
  Bool, true, List, false, some, ◌≡◌, [], suc, ◌||◌, ◌∷◌, zero, ℕ, arith, none, refl, Option, ◌∙◌,
  ap,
}
use esp32_iot_products.Core.Err.{Err}
use esp32_iot_products.Rtos.Objects.{Kernel}

module _ {P : Type 0} (port : Port P) where
  -- Whether an object of the list has the handle.
  abbrev pub owns : List P → ℕ → Bool
  owns [] h = false
  owns (p ∷ ps) h = any_handle (port.parts p) h || owns ps h

  -- No two parts of objects of the list are one.
  abbrev Separate : List P → Type 0
  Separate [] = Unit {0}
  Separate (p ∷ ps) =
      Apart (port.parts p)
      × (((h : ℕ) → any_handle (port.parts p) h ≡ true → owns ps h ≡ false) × Separate ps)

  -- The system holds what the objects hold, and what it held at first; these are different handles.
  record Balanced (base : ℕ → Bool) (l : Ledger P) : Type 0 where
    sane : Sane l.kernel
    separate : Separate l.held
    balance : (h : ℕ) → l.kernel.live h ≡ (owns l.held h || base h)
    others : (h : ℕ) → owns l.held h ≡ true → base h ≡ false

  -- What taking an object out leaves.
  abbrev Taken : List P → Option (P × List P) → Type 0
  Taken held none = Unit {0}
  Taken held (some (p, ps)) =
      Separate (p ∷ ps) × ((h : ℕ) → owns held h ≡ (any_handle (port.parts p) h || owns ps h))

  Taken-cons :
      (q : P) (held : List P) (o : Option (P × List P))
      → Separate (q ∷ held)
      → Taken held o
      → Taken (q ∷ held) (elim o [ none ↦ none | some (p, ps) ↦ some (p, q ∷ ps) ])
  Taken-cons q held none s t = tt
  Taken-cons q held (some (p, ps)) (whole, (new, rest)) ((whole', (new', rest')), same) = (
    (
      whole',
      (
        λ h e. ground (arith, e, new' h e, same h, new h),
        (whole, (λ h e. ground (arith, e, same h, new h e), rest')),
      ),
    ),
    λ h. ground (arith, same h),
  )

  take_at-Taken : (i : ℕ) (held : List P) → Separate held → Taken held (take_at i held)
  unfolding take_at
  take_at-Taken i [] s = tt
  take_at-Taken zero (q ∷ held) s = (s, λ h. refl)
  take_at-Taken (suc i) (q ∷ held) (whole, (new, rest)) =
      Taken-cons q held (take_at i held) (whole, (new, rest)) (take_at-Taken i held rest)

  -- A step that goes well, to a state that balances.
  abbrev Steps : (ℕ → Bool) → Option (Ledger P) → Type 0
  Steps base o = (l : Ledger P) × (o ≡ some l) × Balanced base l

  delete_one-Balanced :
      (base : ℕ → Bool) (l : Ledger P) (o : Option (P × List P))
      → Balanced base l
      → Taken l.held o
      → Steps base (delete_one port l.kernel l.held o)
  unfolding delete_one after_delete
  delete_one-Balanced base l none b t = (l, refl, b)
  delete_one-Balanced base l (some (p, ps)) b ((whole, (new, rest)), same) =
      let (k, e, a, live) =
        port.delete-law p whole l.kernel (λ h e. ground (arith, e, b.balance h, same h)) in
      (
        record { kernel = k; held = ps },
        ap (after_delete ps) e,
        record {
          sane = λ h e. ground (arith, e, live h, b.sane h, a);
          separate = rest;
          balance = λ h. ground (arith, live h, b.balance h, same h, new h, b.others h);
          others = λ h e. ground (arith, e, same h, b.others h);
        },
      )

  Created-Balanced :
      (base : ℕ → Bool) (l : Ledger P) (r : (Err × Option P) × Kernel)
      → Balanced base l
      → Created port.parts l.kernel r
      → Balanced base (record { kernel = r.1; held = add_new r.0.1 l.held })
  unfolding add_new
  Created-Balanced base l r b (turned_down e k bad more same) = record {
    sane = λ h e. ground (arith, e, same h, b.sane h, more);
    separate = b.separate;
    balance = λ h. ground (arith, same h, b.balance h);
    others = b.others;
  }
  Created-Balanced base l r b (handed_out p k whole more live fresh) = record {
    sane = λ h e. ground (arith, e, live h, fresh h, b.sane h, more);
    separate = (whole, (λ h e. ground (arith, e, fresh h, b.balance h, b.sane h), b.separate));
    balance = λ h. ground (arith, live h, b.balance h);
    others = λ h e. ground (arith, e, fresh h, b.balance h, b.sane h, b.others h);
  }

  ledger_act-Balanced :
      (base : ℕ → Bool) (a : LedgerAct) (l : Ledger P)
      → Balanced base l
      → Steps base (ledger_act port a l)
  unfolding ledger_act after_create
  ledger_act-Balanced base creates l b =
      let (r, e, c) = port.create-law l.kernel b.sane in
      (
        record { kernel = r.1; held = add_new r.0.1 l.held },
        ap (after_create l.held) e,
        Created-Balanced base l r b c,
      )
  ledger_act-Balanced base (deletes i) l b =
      delete_one-Balanced base l (take_at i l.held) b (take_at-Taken i l.held b.separate)

  ledger_acts-Balanced :
      (base : ℕ → Bool) (acts : List LedgerAct) (l : Ledger P)
      → Balanced base l
      → Steps base (ledger_acts port acts (some l))
  unfolding ledger_acts
  ledger_acts-Balanced base [] l b = (l, refl, b)
  ledger_acts-Balanced base (a ∷ acts) l b =
      let (l', e, b') = ledger_act-Balanced base a l b in
      let (l'', e', b'') = ledger_acts-Balanced base acts l' b' in
      (l'', ap (ledger_acts port acts) e ∙ e', b'')

  -- Whatever the order in which a client creates and deletes objects, and whatever the system grants
  -- it, no handle is given back twice, and the system holds exactly the handles that it held at first
  -- and those of the objects that the client has: nothing is lost by a creation that fails.
  pub ledger_acts_lem :
      (acts : List LedgerAct) (k : Kernel)
      → Sane k
      → (l : Ledger P) × (ledger_acts port acts (some (record { kernel = k; held = [] })) ≡ some l)
        × ((h : ℕ) → l.kernel.live h ≡ (owns l.held h || k.live h))
        × ((h : ℕ) → owns l.held h ≡ true → k.live h ≡ false)
  ledger_acts_lem acts k sane =
      let (l, e, b) =
        ledger_acts-Balanced k.live acts (record { kernel = k; held = [] })
          (record {
            sane = sane;
            separate = tt;
            balance = λ h. refl;
            others = λ h e. ground (arith, e);
          }) in
      (l, e, b.balance, b.others)
