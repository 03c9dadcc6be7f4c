-- ===== src/UseCase/Reply.antt =====
-- The replies of the use cases: `snprintf(js, sizeof(js), "{\"uc\":\"%s\",…}", iot_uc_name(id), …)`.
use esp32_iot_products.CText.{Text, codes, snprintf, concat}
use esp32_iot_products.UseCase.Types.{UcId}
use esp32_iot_products.UseCase.Catalog.{uc_name}
use esp32_iot_products.Prelude.{◌++◌, List, ℕ}

-- `,"<key>":<value>`
pub member : Text → Text → Text
member key value = codes "," ++ (codes "\"" ++ (key ++ (codes "\":" ++ value)))

-- `\"%s\"`
pub quoted : Text → Text
quoted s = codes "\"" ++ (s ++ codes "\"")

-- The object in a buffer of `size` bytes.
pub reply_text : ℕ → UcId → List Text → Text
reply_text size id members =
    snprintf size (codes "{\"uc\":" ++ (quoted (uc_name id) ++ (concat members ++ codes "}")))
