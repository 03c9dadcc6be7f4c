-- ===== src/Rtos/Objects/Port.antt =====
-- What creating and deleting objects owes to the system, for any kind of object.
use esp32_iot_products.UseCase.Types.{set_at}
use esp32_iot_products.Core.Err.{Err, ok}
use esp32_iot_products.Rtos.Objects.{Kernel, M, ◌>>◌, close, close_if, request, ◌>>=◌}
use esp32_iot_products.Prelude.{
  ◌==◌, suc, ◌<◌, ◌||◌, none, refl, false, [], ◌∷◌, ◌≡◌, Option, ◌≢◌, inl, true, inr, ℕ, Bool-cases,
  arith, some, ◌∙◌, Bool, List, ◌&&◌, not, ◌≤◌, ap,
}

-- The next handle is not held.
abbrev pub Sane : Kernel → Type 0
Sane k = (h : ℕ) → k.live h ≡ true → h < k.asked

-- Whether this is the handle, and whether it is one of several.
abbrev pub is_handle : Option ℕ → ℕ → Bool
is_handle none h = false
is_handle (some x) h = h == x

abbrev pub any_handle : List (Option ℕ) → ℕ → Bool
any_handle [] h = false
any_handle (p ∷ ps) h = is_handle p h || any_handle ps h

-- No handle stands twice.
abbrev pub Apart : List (Option ℕ) → Type 0
Apart [] = Unit {0}
Apart (p ∷ ps) = ((h : ℕ) → is_handle p h ≡ true → any_handle ps h ≡ false) × Apart ps

-- What a call of a create function leaves of a state: on success the handles of the new object, all
-- new, and otherwise nothing.
pub data Created {P : Type 0} (parts : P → List (Option ℕ)) (k : Kernel)
    : (Err × Option P) × Kernel → Type 0 where
  turned_down :
      (e : Err) (k' : Kernel)
      → e ≢ ok
      → k.asked ≤ k'.asked
      → ((h : ℕ) → k'.live h ≡ k.live h)
      → Created parts k ((e, none), k')
  handed_out :
      (p : P) (k' : Kernel)
      → Apart (parts p)
      → k.asked ≤ k'.asked
      → ((h : ℕ) → k'.live h ≡ (any_handle (parts p) h || k.live h))
      → ((h : ℕ) → any_handle (parts p) h ≡ true → (k.asked ≤ h) × (h < k'.asked))
      → Created parts k ((ok, some p), k')

-- A call that fails at once.
pub rejected-Created :
    {P : Type 0} (parts : P → List (Option ℕ)) (e : Err) (k : Kernel)
    → e ≢ ok
    → Created parts k ((e, none), k)
rejected-Created parts e k bad = turned_down e k bad (omega arith) (λ h. refl)

-- What a call of a delete function leaves of a state in which all the handles are held.
abbrev pub Deletes : List (Option ℕ) → M (Unit {0}) → Type 0
Deletes ps m =
    (k : Kernel)
    → ((h : ℕ) → any_handle ps h ≡ true → k.live h ≡ true)
    → (k' : Kernel) × (m k ≡ some (tt, k'))
      × (k'.asked ≡ k.asked)
      × ((h : ℕ) → k'.live h ≡ (k.live h && not (any_handle ps h)))

-- A kind of objects: what creates one with all the arguments that it takes, what deletes it, and
-- the handles of one.
pub record Port (P : Type 0) : Type 0 where
  pub create : M (Err × Option P)
  pub delete : P → M (Unit {0})
  pub parts : P → List (Option ℕ)
  pub create-law :
      (k : Kernel)
      → Sane k
      → (r : (Err × Option P) × Kernel) × (create k ≡ some r) × Created parts k r
  pub delete-law : (p : P) → Apart (parts p) → Deletes (parts p) (delete p)

-- A request gives a new handle or none.
pub request-law :
    (grants : ℕ → Bool) (k : Kernel)
    → (o : Option ℕ) × (k' : Kernel) × (request grants k ≡ some (o, k'))
      × (k'.asked ≡ suc k.asked)
      × ((h : ℕ) → k'.live h ≡ (is_handle o h || k.live h))
      × ((h : ℕ) → is_handle o h ≡ true → h ≡ k.asked)
unfolding request
request-law grants k = elim (Bool-cases (grants k.asked)) [
  | inl e ↦ (
    some k.asked,
    record { asked = suc k.asked; live = set_at k.live k.asked true },
    rw e refl,
    refl,
    (λ h. ground arith),
    (λ h. ground arith),
  )
  | inr e ↦
      (none, record k { asked = suc k.asked }, rw e refl, refl, (λ h. refl), (λ h. ground arith))
]

pub close_if-law : (p : Option ℕ) → Deletes (p ∷ []) (close_if p)
unfolding close_if close
close_if-law none k live = (k, refl, refl, λ h. ground arith)
close_if-law (some x) k live =
    let held : k.live x ≡ true = live x (ground arith) in
    (record k { live = set_at k.live x false }, rw held refl, refl, λ h. ground arith)

-- A step that returns is followed by the rest.
pub >>=-some :
    {A B : Type 0} (m : M A) (f : A → M B) (k k' : Kernel) (a : A)
    → m k ≡ some (a, k')
    → (m >>= f) k ≡ f a k'
>>=-some {B = B} m f k k' a e =
    ap (λ o. elim o as (λ x. Option (B × Kernel)) [ none ↦ none | some (b, k'') ↦ f b k'' ]) e

-- Closing several handles in a row.
unfoldable pub close_all : Option ℕ → List (Option ℕ) → M (Unit {0})
close_all p [] = close_if p
close_all p (q ∷ qs) = close_if p >> close_all q qs

pub close_all-law :
    (p : Option ℕ) (ps : List (Option ℕ)) → Apart (p ∷ ps) → Deletes (p ∷ ps) (close_all p ps)
unfolding close_all
close_all-law p [] apart k live = close_if-law p k live
close_all-law p (q ∷ qs) (this, others) k live =
    let (k₁, e₁, a₁, l₁) = close_if-law p k (λ h e. live h (ground (arith, e))) in
    let (k₂, e₂, a₂, l₂) =
      close_all-law q qs others k₁ (λ h e. ground (arith, e, l₁ h, live h, this h)) in
    (
      k₂,
      >>=-some (close_if p) (λ u. close_all q qs) k k₁ tt e₁ ∙ e₂,
      a₂ ∙ a₁,
      λ h. ground (arith, l₁ h, l₂ h),
    )
