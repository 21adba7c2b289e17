-- ===== src/Export/Tests.antt =====
-- A file of two columns, and an envelope of the smallest scope.
use kootha.Prelude.{
  ℕ, ◌≡◌, refl, Bool, true, false, Option, some, String, List, [], ◌∷◌, codes, All,
}
use kootha.Prelude.Number.{pos, negsuc, Number, integer, fraction, nan}
use kootha.Prelude.Json.{
  Text, Value, obj, arr, str, num, bool, Fields, end, field, Items, no_items, item,
}
use kootha.Export.Csv.{serialize_operations_csv, normalize_operations_export_limit}
use kootha.Export.Rfc4180.{read_file}
use kootha.Export.Reader.{
  row_cells, header_cells, IsInert, read_file-serialize_operations_csv,
  serialize_operations_csv-IsInert,
}
use kootha.Export.Envelope.{validate_operations_export_envelope}
use kootha.Export.Accepted.{IsAccepted, validate_operations_export_envelope-IsAccepted}

abbrev half : ℕ → Text
half k = codes "0.5"

abbrev rows : List Fields
rows =
    field "id" (num (integer (negsuc 4))) (field "note" (str (codes "=1+\"x\"")) end)
    ∷ field "id" (num (fraction 0)) end
    ∷ []

abbrev file : Text
file = 65279 ∷ (codes "id,note\r\n'-5,\"'=1+\"\"x\"\"\"\r\n0.5,\r\n")

serialized : serialize_operations_csv half ("id" ∷ "note" ∷ []) rows ≡ file
unfolding serialize_operations_csv
serialized = refl

no_number : Option Value → Number
no_number value = nan

limits :
    normalize_operations_export_limit no_number (some (num (integer (pos 900)))) (integer (pos 200))
    ≡ integer (pos 500)
unfolding normalize_operations_export_limit
limits = refl

abbrev contents : List (List Text)
contents =
    (codes "id" ∷ codes "note" ∷ [])
    ∷ (codes "'-5" ∷ codes "'=1+\"x\"" ∷ [])
    ∷ (codes "0.5" ∷ [] ∷ [])
    ∷ []

read_file-serialize_operations_csv_example :
    read_file (serialize_operations_csv half ("id" ∷ "note" ∷ []) rows) ≡ some contents
unfolding row_cells header_cells
read_file-serialize_operations_csv_example =
    read_file-serialize_operations_csv half "id" ("note" ∷ []) rows

serialize_operations_csv-IsInert_example : All (All IsInert) contents
serialize_operations_csv-IsInert_example =
    serialize_operations_csv-IsInert half "id" ("note" ∷ []) rows contents
      read_file-serialize_operations_csv_example

abbrev text : String → Value
text s = str (codes s)

abbrev texts : List String → Items
texts [] = no_items
texts (s ∷ ss) = item (text s) (texts ss)

abbrev audit_row : Fields
audit_row = field "id" (text "e1") (
    field "action" (text "x") (
      field "actor_type" (text "admin") (
        field "entity_type" (text "ad_work") (
          field "entity_id" (text "w1")
            (field "safe_details" (obj end) (field "created_at" (text "2026-01-01") end))))))

abbrev envelope : Fields
envelope = field "contractVersion" (text "m27.operations-export.v1") (
    field "receiptId" (text "0a1b2c3d-0000-4000-8000-AAAAAAAAAAAA") (
      field "scope" (text "audit") (
        field "format" (text "json") (
          field "rowCount" (num (integer (pos 1))) (
            field "truncated" (bool false) (
              field "containsPii" (bool false) (
                field "generatedAt" (text "2026-01-01") (
                  field "columns"
                    (arr (
                      texts (
                        "id" ∷ "actor_type" ∷ "action" ∷ "entity_type" ∷ "entity_id" ∷ "created_at"
                        ∷ "safe_details" ∷ [])))
                    (field "filters" (obj end)
                      (field "rows" (arr (item (obj audit_row) no_items)) end))))))))))

any_date : Text → Bool
any_date t = true

validate_operations_export_envelope-IsAccepted_example : IsAccepted envelope
unfolding validate_operations_export_envelope any_date
validate_operations_export_envelope-IsAccepted_example =
    validate_operations_export_envelope-IsAccepted any_date envelope refl
