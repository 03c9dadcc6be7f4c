-- ===== src/UseCase/Run/Names.antt =====
-- How a command of the JSON form finds its handler in components/iot_usecases/src/iot_uc.c.
use esp32_iot_products.UseCase.Run.{run, World, fn_of, json_input, run_json, or_dummy, row_fn, call}
use esp32_iot_products.CText.{
  Text, codes, starts_with, strstr, strchr, advance, skip_while, snprintf,
}
use esp32_iot_products.UseCase.Json.{
  quote, pattern_of, value_at, is_blank, copy_string, string_value, json_string, json_str,
}
use esp32_iot_products.UseCase.Types.{UcId, uc_num, In, Out, zero_out}
use esp32_iot_products.UseCase.Catalog.{s_tab, find_row, find_id, uc_name}
use esp32_iot_products.UseCase.Catalog.Laws.{id_from_name-uc_name}
use esp32_iot_products.Core.Float.{Float}
use esp32_iot_products.Prelude.{
  refl, some, [], ◌++◌, Option, ℕ, true, ◌≡◌, ◌∷◌, ◌==◌, false, ◌<◌, arith,
}

-- A JSON command whose first member is the name of a use case; `rest` is whatever follows.
abbrev pub command_text : UcId → Text → Text
command_text id rest = codes "{\"uc\":\"" ++ uc_name id ++ quote ∷ rest

json_str-command_text :
    (id : UcId) (rest : Text)
    → json_str (some (command_text id rest)) (codes "uc") [] 48 ≡ (true, uc_name id)
unfolding json_str json_string value_at pattern_of snprintf strstr starts_with strchr advance
    string_value skip_while is_blank copy_string uc_name find_id find_row s_tab codes uc_num
json_str-command_text UcId.invalid rest = refl
json_str-command_text _ rest = refl

module _ (F : Type 0) ⦃fl : Float F⦄ where
  row_fn-find_id : (id : UcId) → row_fn {F = F} (find_id id) ≡ fn_of id
  unfolding row_fn fn_of find_id find_row s_tab uc_num
  row_fn-find_id UcId.invalid = refl
  row_fn-find_id _ = refl

module _ {F : Type 0} ⦃fl : Float F⦄ where
  -- A command that has an output buffer runs the handler that the table names for its id, on a
  -- zeroed reply. If there is none, it is not found and only the mark of the initialisation is set.
  pub run_lem :
      (id : UcId) (inp : Option (In F)) (out : Out F) (σ : World F)
      → run id inp (some out) σ
        ≡ call (fn_of id) id (or_dummy inp) zero_out (record σ { init = true })
  unfolding run
  run_lem id inp out σ = rw (row_fn-find_id F id)

  -- A JSON text that starts with the name of a use case runs exactly that use case, whatever
  -- follows the name: its input is read from the text, and its reply starts from zero.
  pub run_json-command_text :
      (id : UcId) (rest : Text) (len : ℕ) (out : Out F) (σ : World F)
      → 0 < len
      → let json = command_text id rest in
        run_json (some json) len (some out) σ
        ≡ call (fn_of id) id (json_input json len) zero_out (record σ { init = true })
  unfolding run_json or_dummy
  run_json-command_text id rest len out σ h =
      let nonempty : (len == 0) ≡ false = ground arith in
      rw (
        json_str-command_text id rest,
        id_from_name-uc_name id,
        run_lem id (some (json_input (command_text id rest) len)) out σ,
        nonempty,
      )
