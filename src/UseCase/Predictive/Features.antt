-- ===== src/UseCase/Predictive/Features.antt =====
-- The features and the health score of components/iot_usecases/src/iot_uc_industrial.c.
use esp32_iot_products.UseCase.Json.{has_key, holds}
use esp32_iot_products.UseCase.Predictive.{
  Pm, health_of, pm_health, pm_features, pm_on_sample, pm_update,
}
use esp32_iot_products.UseCase.Types.{Out, zero_in}
use esp32_iot_products.Core.Float.{Float, whole}
use esp32_iot_products.Prelude.Int.{◌≤ℤ◌}
use esp32_iot_products.Prelude.{false, List, ◌∷◌, arith, ◌≡◌, [], true}

module _ {F : Type 0} ⦃fl : Float F⦄ where
  -- If `>` is transitive, a stronger vibration never gets a better score.
  pub health_of-antitone :
      ((a b c : F) → fl.gt a b ≡ true → fl.gt b c ≡ true → fl.gt a c ≡ true)
      → (weak strong : F) → fl.gt strong weak ≡ true
      → health_of strong ≤ℤ health_of weak
  unfolding health_of
  health_of-antitone trans weak strong h =
      ground (
        arith,
        trans (whole 2) strong weak,
        trans (whole 5) strong weak,
        trans (whole 8) strong weak,
      )

  -- The machine after a list of samples, oldest first.
  pub sample_all : List F → Out F → Pm F → Pm F
  sample_all [] out pm = pm
  sample_all (x ∷ xs) out pm = sample_all xs out (pm_on_sample x out pm).2

  -- No sample of the list is stronger than the bound.
  abbrev pub Within : F → List F → Type 0
  Within top [] = Unit {0}
  Within top (x ∷ xs) = (fl.gt (fl.fabs x) top ≡ false) × Within top xs

  module _ (nothing_above_itself : (a : F) → fl.gt a a ≡ false)
      (below_rising : (a b c : F) → fl.gt a b ≡ false → fl.gt c b ≡ true → fl.gt a c ≡ false) where
    peak-rises :
        (a x : F) (out : Out F) (pm : Pm F)
        → fl.gt a pm.peak ≡ false
        → fl.gt a (pm_on_sample x out pm).2.peak ≡ false
    unfolding pm_on_sample pm_features pm_health pm_update zero_in holds has_key
    peak-rises a x out pm h = ground (arith, below_rising a pm.peak (fl.fabs x) h)

    peak-of_sample :
        (x : F) (out : Out F) (pm : Pm F) → fl.gt (fl.fabs x) (pm_on_sample x out pm).2.peak ≡ false
    unfolding pm_on_sample pm_features pm_health pm_update zero_in holds has_key
    peak-of_sample x out pm = ground (arith, nothing_above_itself (fl.fabs x))

    sample_all-above :
        (a : F) (xs : List F) (out : Out F) (pm : Pm F)
        → fl.gt a pm.peak ≡ false
        → fl.gt a (sample_all xs out pm).peak ≡ false
    unfolding sample_all
    sample_all-above a [] out pm h = h
    sample_all-above a (x ∷ xs) out pm h =
        sample_all-above a xs out (pm_on_sample x out pm).2 (peak-rises a x out pm h)

    -- If `>` is irreflexive, and what is not above b is not above anything above b either, then the
    -- held peak is an upper bound of the magnitudes of all samples since.
    pub peak-Within :
        (xs : List F) (out : Out F) (pm : Pm F) → Within (sample_all xs out pm).peak xs
    unfolding sample_all
    peak-Within [] out pm = tt
    peak-Within (x ∷ xs) out pm = (
      sample_all-above (fl.fabs x) xs out (pm_on_sample x out pm).2 (peak-of_sample x out pm),
      peak-Within xs out (pm_on_sample x out pm).2,
    )
