-- ===== src/UseCase/Json.antt =====
-- The JSON reader of components/iot_usecases/src/iot_uc.c: it looks for a quoted key anywhere in
-- the text, and reads what stands behind the next colon. `key` and `out` are never NULL in the
-- sources; `json` may be.
pub mod Strings
use esp32_iot_products.Prelude.{
  ℕ, zero, suc, ◌-◌, Bool, true, false, ◌||◌, not, Option, none, some, [], ◌∷◌, ◌++◌, ◌==◌,
  if◌then◌else◌, length,
}
use esp32_iot_products.Prelude.Int.{ℤ}
use esp32_iot_products.CText.{Text, snprintf, strstr, strchr, advance, skip_while}
use esp32_iot_products.UseCase.Types.{In}
use esp32_iot_products.Core.Float.{Float, whole}

abbrev pub quote : ℕ
quote = 34

abbrev pub colon : ℕ
colon = 58

-- `char pat[48]; snprintf(pat, sizeof(pat), "\"%s\"", key)`
unfoldable pub pattern_of : Text → Text
pattern_of key = snprintf 48 (quote ∷ (key ++ quote ∷ []))

unfoldable pub has_key : Option Text → Text → Bool
has_key none key = false
has_key (some json) key = elim (strstr json (pattern_of key)) [ none ↦ false | some p ↦ true ]

-- The text behind the first colon that follows the key: the two searches that the readers share.
unfoldable pub value_at : Text → Text → Option Text
value_at json key = elim (strstr json (pattern_of key)) [
  | none ↦ none
  | some p ↦ elim (strchr (advance (length (pattern_of key)) p) colon) [
    | none ↦ none
    | some q ↦ some (advance 1 q)
  ]
]

-- `' '` and `'\t'`
unfoldable pub is_blank : ℕ → Bool
is_blank c = (c == 32) || (c == 9)

-- The copying loop: it stops at the NUL, at a quote, or when one byte of room is left.
unfoldable pub copy_string : ℕ → Text → Text
copy_string zero p = []
copy_string (suc room) [] = []
copy_string (suc room) (c ∷ p) = if c == quote then [] else c ∷ copy_string room p

-- Behind the colon: blanks, the opening quote, and the bytes of the string.
unfoldable pub string_value : Text → ℕ → Option Text
string_value p out_len = elim (skip_while is_blank p) [
  | [] ↦ none
  | c ∷ q ↦ if c == quote then some (copy_string (out_len - 1) q) else none
]

-- What the reader leaves in a buffer of `out_len` bytes: `none` where it returns before writing.
unfoldable pub json_string : Option Text → Text → ℕ → Option Text
json_string none key out_len = none
json_string (some json) key out_len =
    if out_len == 0
    then none
    else elim (value_at json key) [ none ↦ none | some p ↦ string_value p out_len ]

-- `iot_uc_json_str`: the value returned, and the buffer, which held `old`.
unfoldable pub json_str : Option Text → Text → Text → ℕ → Bool × Text
json_str json key old out_len = elim (json_string json key out_len) [
  | none ↦ (false, old)
  | some s ↦ (not (length s == 0), s)
]

module _ {F : Type 0} ⦃fl : Float F⦄ where
  -- `iot_uc_json_f32`, where `*out` held `old`.
  unfoldable pub json_f32 : Option Text → Text → F → Bool × F
  json_f32 none key old = (false, old)
  json_f32 (some json) key old = elim (value_at json key) [
    | none ↦ (false, old)
    | some p ↦ (true, fl.atof p)
  ]

-- `iot_uc_json_i32`
module _ (F : Type 0) ⦃fl : Float F⦄ where
  unfoldable pub json_i32 : Option Text → Text → ℤ → Bool × ℤ
  json_i32 json key old =
      let (found, x) = json_f32 json key (whole 0) in
      if found then (true, fl.to_int x) else (false, old)

-- `(void)iot_uc_json_f32(in->json, key, &x)`, and the same for an integer: the new value of `x`.
module _ {F : Type 0} ⦃fl : Float F⦄ where
  unfoldable pub read_f32 : In F → Text → F → F
  read_f32 inp key old = (json_f32 inp.json key old).1

  unfoldable pub read_i32 : In F → Text → ℤ → ℤ
  read_i32 inp key old = (json_i32 F inp.json key old).1

  -- `(in->json != NULL) && iot_uc_json_has_key(in->json, key)`
  unfoldable pub holds : In F → Text → Bool
  holds inp key = has_key inp.json key
