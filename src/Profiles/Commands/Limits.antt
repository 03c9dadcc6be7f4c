-- ===== src/Profiles/Commands/Limits.antt =====
-- Which part of a legacy message the profiles of components/iot_profiles read as a number.
use esp32_iot_products.CText.{Text, codes, starts_with, strstr}
use esp32_iot_products.UseCase.Json.{colon}
use esp32_iot_products.Services.Payload.{NoNul, text_of-NoNul}
use esp32_iot_products.Profiles.Commands.{text_after, legacy_skip}
use esp32_iot_products.Prelude.{
  arith, ◌++◌, ◌≡◌, ◌-◌, ◌∷◌, ◌+◌, length, some, none, Option, refl, ◌∙◌, drop, List, ℕ, ap,
}
use esp32_iot_products.Core.Types.{text_of}

text_after-found :
    (payload : List ℕ) (json key p : Text) (n : ℕ)
    → strstr json key ≡ some p
    → length json - length p + legacy_skip ≡ n
    → text_after payload json key legacy_skip ≡ text_of (drop n payload)
unfolding text_after
text_after-found payload json key p n found from =
    ap
      (λ o. elim o as (λ x. Option Text) [
        | none ↦ none
        | some q ↦ text_of (drop (length json - length q + legacy_skip) payload)
      ])
      found
    ∙ ap (λ m. text_of (drop m payload)) from

strstr-json :
    (rest : Text)
    → strstr (codes "{\"alarm_w\":" ++ rest) (codes "alarm_w") ≡ some (codes "alarm_w\":" ++ rest)
unfolding strstr starts_with codes
strstr-json rest = refl

-- The text that `atof` is given for a message in JSON, `{"alarm_w":…`, starts with the colon, not
-- with the number: the eighth byte from the start of the word is behind its closing quote.
pub text_after-json :
    (rest pad : Text)
    → let json = codes "{\"alarm_w\":" ++ rest in
      NoNul rest
      → text_after (json ++ 0 ∷ pad) json (codes "alarm_w") legacy_skip ≡ some (colon ∷ rest)
unfolding codes
text_after-json rest pad h =
    let json = codes "{\"alarm_w\":" ++ rest in
    let found : strstr json (codes "alarm_w") ≡ some (codes "alarm_w\":" ++ rest) =
      strstr-json rest in
    let from : length json - length (codes "alarm_w\":" ++ rest) + legacy_skip ≡ 10 =
      ground arith in
    text_after-found (json ++ 0 ∷ pad) json (codes "alarm_w") _ 10 found from
    ∙ text_of-NoNul (colon ∷ rest) pad ((ground arith), h)
