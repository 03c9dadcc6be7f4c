-- ===== src/UseCase/Json/Strings.antt =====
-- What iot_uc_json_str of components/iot_usecases/src/iot_uc.c writes, and what it reads back.
-- A text without a quote.
use esp32_iot_products.CText.{Text, starts_with, advance, strstr, strchr, skip_while, snprintf}
use esp32_iot_products.UseCase.Json.{
  quote, colon, value_at, copy_string, string_value, json_string, json_str, pattern_of, is_blank,
}
use esp32_iot_products.Prelude.{
  ◌≤◌, ◌<◌, some, none, [], Option, ◌≡◌, arith, ◌==◌, true, suc, ◌≢◌, zero, length, ◌∷◌, refl, not,
  ◌++◌, ℕ, inr, take, Option-cases, inl, ◌-◌, List-cases,
}

abbrev pub NoQuote : Text → Type 0
NoQuote [] = Unit {0}
NoQuote (c ∷ cs) = (c ≢ quote) × NoQuote cs

copy_string-room : (room : ℕ) (p : Text) → length (copy_string room p) ≤ room
unfolding copy_string
copy_string-room zero p = ground arith
copy_string-room (suc room) [] = ground arith
copy_string-room (suc room) (c ∷ p) = ground (arith, copy_string-room room p)

string_value-room :
    (p : Text) (out_len : ℕ) (s : Text) → string_value p out_len ≡ some s → length s ≤ out_len - 1
unfolding string_value
string_value-room p out_len s e = elim (List-cases (skip_while is_blank p)) [
  | inl b ↦ ground (arith, b, e)
  | inr (c, q, b) ↦ ground (arith, b, e, copy_string-room (out_len - 1) q)
]

-- The text fits the buffer with its NUL, if what the buffer held before did: nothing is written
-- past its end, whatever the JSON text.
pub length-json_str :
    (json : Option Text) (key old : Text) (out_len : ℕ)
    → length old < out_len
    → length (json_str json key old out_len).1 < out_len
unfolding json_str json_string
length-json_str none key old out_len h = h
length-json_str (some json) key old out_len h = elim (Option-cases (value_at json key)) [
  | inl e ↦ ground (arith, e, h)
  | inr (p, e) ↦ elim (Option-cases (string_value p out_len)) [
    | inl n ↦ ground (arith, e, n, h)
    | inr (s, f) ↦ ground (arith, e, f, h, string_value-room p out_len s f)
  ]
]

pub copy_string-value :
    (room : ℕ) (value rest : Text)
    → NoQuote value
    → length value ≤ room
    → copy_string room (value ++ quote ∷ rest) ≡ value
unfolding copy_string
copy_string-value zero [] rest q h = refl
copy_string-value zero (c ∷ value) rest q h = ground arith
copy_string-value (suc room) [] rest q h = refl
copy_string-value (suc room) (c ∷ value) rest (n, q) h =
    ground (arith, n, copy_string-value room value rest q (ground arith))

starts_with-append : (p s : Text) → starts_with p (p ++ s) ≡ true
unfolding starts_with
starts_with-append [] s = refl
starts_with-append (c ∷ p) s = ground (arith, starts_with-append p s)

pub advance-append : (p s : Text) → advance (length p) (p ++ s) ≡ s
unfolding advance
advance-append [] s = refl
advance-append (c ∷ p) s = advance-append p s

-- The text `{"<key>":"<value>"`, and whatever follows.
abbrev pub entry : Text → Text → Text → Text
entry key value rest =
    123 ∷ (quote ∷ (key ++ quote ∷ [])) ++ colon ∷ quote ∷ (value ++ quote ∷ rest)

pub take-short : (n : ℕ) (xs : Text) → length xs ≤ n → take n xs ≡ xs
take-short zero [] h = refl
take-short zero (x ∷ xs) h = ground arith
take-short (suc n) [] h = refl
take-short (suc n) (x ∷ xs) h = ground (arith, take-short n xs (ground arith))

pub length-append_one : (key : Text) (c : ℕ) → length (key ++ c ∷ []) ≡ suc (length key)
length-append_one [] c = refl
length-append_one (x ∷ key) c = ground (arith, length-append_one key c)

pattern_of-short : (key : Text) → length key ≤ 45 → pattern_of key ≡ quote ∷ (key ++ quote ∷ [])
unfolding pattern_of snprintf
pattern_of-short key k =
    take-short 47 (quote ∷ (key ++ quote ∷ [])) (ground (arith, length-append_one key quote))

pub strstr-entry :
    (key tail : Text)
    → let pat = quote ∷ (key ++ quote ∷ []) in strstr (123 ∷ pat ++ tail) pat ≡ some (pat ++ tail)
unfolding strstr starts_with
strstr-entry key tail = ground (arith, starts_with-append (key ++ quote ∷ []) tail)

value_at-entry :
    (key value rest : Text)
    → length key ≤ 45
    → value_at (entry key value rest) key ≡ some (quote ∷ (value ++ quote ∷ rest))
unfolding value_at strchr
value_at-entry key value rest k =
    let tail = colon ∷ quote ∷ (value ++ quote ∷ rest) in
    ground (
      arith,
      pattern_of-short key k,
      strstr-entry key tail,
      advance-append (quote ∷ (key ++ quote ∷ [])) tail,
      advance-append (colon ∷ []) (quote ∷ (value ++ quote ∷ rest)),
    )

string_value-quote :
    (q : Text) (out_len : ℕ) → string_value (quote ∷ q) out_len ≡ some (copy_string (out_len - 1) q)
unfolding string_value skip_while is_blank
string_value-quote q out_len = refl

-- A value that is written behind a key at the front of an object is read back whole, if the key has
-- at most 45 bytes, the value has no quote, and it fits the buffer.
pub json_str-entry :
    (key value rest old : Text) (out_len : ℕ)
    → length key ≤ 45
    → NoQuote value
    → length value < out_len
    → json_str (some (entry key value rest)) key old out_len ≡ (not (length value == 0), value)
unfolding json_str json_string
json_str-entry key value rest old out_len k q v =
    let copied = copy_string-value (out_len - 1) value rest q (ground arith) in
    ground (
      arith,
      v,
      copied,
      value_at-entry key value rest k,
      string_value-quote (value ++ quote ∷ rest) out_len,
    )
