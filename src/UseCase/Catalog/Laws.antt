-- ===== src/UseCase/Catalog/Laws.antt =====
-- The table of components/iot_usecases/src/iot_uc.c as a map between ids and names.
use esp32_iot_products.Prelude.{◌≡◌, refl}
use mathlib.Core.Option.{some}
use esp32_iot_products.CText.{codes, text_eq}
use esp32_iot_products.UseCase.Types.{UcId, uc_num}
use esp32_iot_products.UseCase.Catalog.{s_tab, id_from_name, uc_name, find_id}

-- Each use case's name leads back to its id, and the name of the invalid id to the invalid id.
pub id_from_name-uc_name : (id : UcId) → id_from_name (some (uc_name id)) ≡ id
unfolding id_from_name uc_name find_id s_tab codes text_eq uc_num
id_from_name-uc_name UcId.invalid = refl
id_from_name-uc_name _ = refl
