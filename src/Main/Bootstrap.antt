-- ===== src/Main/Bootstrap.antt =====
-- src/main/main.c, built for the ESP: the storage that app_main needs before all else.
use esp32_iot_products.Main.{App, HostCalls, Ending, app_main}
use esp32_iot_products.Profiles.{Profile}
use esp32_iot_products.Core.Err.{
  Err, ok, EspCodes, err_from_idf, err_from_idf-good, err_from_idf-ok,
}
use esp32_iot_products.Prelude.Int.{ℤ, pos, eqb_ℤ}
use esp32_iot_products.Prelude.{
  Bool, if◌then◌else◌, Option, false, ◌||◌, some, ◌&&◌, none, ◌≡◌, ◌∙◌, ap, Bool-cases, arith, inr,
  inl, refl, true,
}

-- `ESP_ERR_NVS_NO_FREE_PAGES` and `ESP_ERR_NVS_NEW_VERSION_FOUND`
pub record NvsCodes : Type 0 where
  pub no_free_pages : ℤ
  pub new_version_found : ℤ

-- How `nvs_bootstrap` ends: it returns, or `ESP_ERROR_CHECK` restarts the device.
pub data Bootstrap : Type 0 where
  storage : Err → Bootstrap
  restarts : Bootstrap

-- Whether the partition has to be erased.
unfoldable pub unusable : NvsCodes → ℤ → Bool
unusable c first = eqb_ℤ first c.no_free_pages || eqb_ℤ first c.new_version_found

-- `first` and `second` are what `nvs_flash_init` returns, `erased` what `nvs_flash_erase` returns.
unfoldable pub nvs_bootstrap : EspCodes → NvsCodes → ℤ → ℤ → ℤ → Bootstrap
nvs_bootstrap k c first erased second =
    if unusable c first
    then (if eqb_ℤ erased (pos 0) then storage (err_from_idf k second) else restarts)
    else storage (err_from_idf k first)

not_opened :
    (c : NvsCodes) (first : ℤ)
    → eqb_ℤ c.no_free_pages (pos 0) ≡ false
    → eqb_ℤ c.new_version_found (pos 0) ≡ false
    → unusable c first ≡ true
    → eqb_ℤ first (pos 0) ≡ false
unfolding unusable
not_opened c first full newer broken = ground (arith, full, newer, broken)

module _ {F : Type 0} (k : EspCodes) (calls : HostCalls) (profile : Profile) where
  -- `app_main` with its first test; `none` is a return there, or a restart.
  unfoldable pub boot_app : Bootstrap → App F → Option (Ending × App F)
  boot_app (storage ok) a = some (app_main k calls profile a)
  boot_app other a = none

  boot_failed : (e : Err) (a : App F) → ¬ e ≡ ok → boot_app (storage e) a ≡ none
  unfolding boot_app
  boot_failed ok a h = absurd (h refl)
  boot_failed e a h = refl

  boot_storage :
      (z : ℤ) (a : App F)
      → boot_app (storage (err_from_idf k z)) a
        ≡ (if eqb_ℤ z (pos 0) then some (app_main k calls profile a) else none)
  unfolding boot_app
  boot_storage z a = elim (Bool-cases (eqb_ℤ z (pos 0))) [
    | inl good ↦ rw good (ap (λ (e : Err). boot_app (storage e) a) (err_from_idf-good k z good))
    | inr bad ↦
        rw bad (boot_failed (err_from_idf k z) a (λ e. ground (arith, bad, err_from_idf-ok k z e)))
  ]

  -- The application is brought up exactly if the storage opens at once, or opens after it has been
  -- erased because it was full or of another version.
  pub boot_app-nvs_bootstrap :
      (c : NvsCodes) (first erased second : ℤ) (a : App F)
      → eqb_ℤ c.no_free_pages (pos 0) ≡ false
      → eqb_ℤ c.new_version_found (pos 0) ≡ false
      → boot_app (nvs_bootstrap k c first erased second) a ≡ (
          if eqb_ℤ first (pos 0) || unusable c first && eqb_ℤ erased (pos 0) && eqb_ℤ second (pos 0)
          then some (app_main k calls profile a)
          else none)
  unfolding boot_app nvs_bootstrap unusable
  boot_app-nvs_bootstrap c first erased second a full newer = elim (Bool-cases (unusable c first)) [
    | inr usable ↦ rw usable (boot_storage first a ∙ ground arith)
    | inl broken ↦ rw broken (elim (Bool-cases (eqb_ℤ erased (pos 0))) [
      | inl empty ↦
          rw empty (boot_storage second a ∙ rw (not_opened c first full newer broken) refl)
      | inr stuck ↦ rw stuck (rw (not_opened c first full newer broken) refl)
    ])
  ]
