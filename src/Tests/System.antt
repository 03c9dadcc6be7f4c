-- ===== src/Tests/System.antt =====
-- The properties of Wi-Fi and of the JSON reader, at inputs that exercise them.
use esp32_iot_products.CText.{Text}
use esp32_iot_products.UseCase.Json.{json_str}
use esp32_iot_products.UseCase.Json.Strings.{length-json_str, entry, json_str-entry}
use esp32_iot_products.Prelude.{some, length, ◌==◌, ◌<◌, ◌∷◌, [], arith, ◌≡◌, not}

abbrev ssid_key : Text
ssid_key = 115 ∷ 115 ∷ 105 ∷ 100 ∷ []

abbrev lab : Text
lab = 108 ∷ 97 ∷ 98 ∷ []

json_str-entry_example :
    json_str (some (entry ssid_key lab (125 ∷ []))) ssid_key [] 33 ≡ (not (length lab == 0), lab)
json_str-entry_example =
    json_str-entry ssid_key lab (125 ∷ []) [] 33 (ground arith) (ground arith) (ground arith)

length-json_str_example : length (json_str (some (entry ssid_key lab [])) ssid_key [] 3).1 < 3
length-json_str_example =
    length-json_str (some (entry ssid_key lab [])) ssid_key [] 3 (ground arith)
