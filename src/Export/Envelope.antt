-- ===== src/Export/Envelope.antt =====
-- operationsExport.ts: the check of an export's envelope. `is_date` stands for whether `Date.parse` reads
-- a text.
use kootha.Prelude.{
  ℕ, zero, suc, Bool, true, false, ◌&&◌, ◌||◌, Option, none, some, String, List, [], ◌∷◌,
  if◌then◌else◌, leb, ◌==◌, codes, includes, every, length,
}
use kootha.Prelude.Number.{pos, integer}
use kootha.Prelude.Json.{
  Text, Value, obj, arr, str, num, bool, Fields, end, field, Items, no_items, item, get_field,
  count_items, items_list,
}
use kootha.Prelude.Text.{text_eq, is_text}
use kootha.Telemetry.Timestamp.{and_then, read_char}

pub data OperationsExportScope : Type 0 where
  enquiries ad_works drivers vehicles devices audit : OperationsExportScope

abbrev pub operations_export_scopes : List OperationsExportScope
operations_export_scopes = enquiries ∷ ad_works ∷ drivers ∷ vehicles ∷ devices ∷ audit ∷ []

abbrev pub scope_text : OperationsExportScope → Text
scope_text enquiries = codes "enquiries"
scope_text ad_works = codes "ad_works"
scope_text drivers = codes "drivers"
scope_text vehicles = codes "vehicles"
scope_text devices = codes "devices"
scope_text audit = codes "audit"

abbrev pub operations_export_scope_contains_pii : OperationsExportScope → Bool
operations_export_scope_contains_pii enquiries = true
operations_export_scope_contains_pii ad_works = true
operations_export_scope_contains_pii drivers = true
operations_export_scope_contains_pii _ = false

abbrev pub operations_export_scope_columns : OperationsExportScope → List String
operations_export_scope_columns enquiries =
    "id" ∷ "customer_name" ∷ "business_name" ∷ "phone" ∷ "city" ∷ "required_areas"
    ∷ "preferred_start_date" ∷ "number_of_days" ∷ "source" ∷ "status" ∷ "package_interest"
    ∷ "live_tracking_needed" ∷ "follow_up_date" ∷ "created_at" ∷ "updated_at" ∷ []
operations_export_scope_columns ad_works =
    "id" ∷ "title" ∷ "customer_name" ∷ "business_name" ∷ "customer_phone" ∷ "city" ∷ "start_date"
    ∷ "end_date" ∷ "planning_status" ∷ "assignment_status" ∷ "execution_overall_status"
    ∷ "closure_status" ∷ "package_interest" ∷ "number_of_days" ∷ "created_at" ∷ "updated_at" ∷ []
operations_export_scope_columns drivers =
    "id" ∷ "name" ∷ "phone" ∷ "city" ∷ "service_areas" ∷ "onboarding_status"
    ∷ "availability_status_text" ∷ "created_at" ∷ "updated_at" ∷ []
operations_export_scope_columns vehicles =
    "id" ∷ "vehicle_number" ∷ "vehicle_type" ∷ "city" ∷ "onboarding_status" ∷ "mic_system_available"
    ∷ "gps_device_available" ∷ "gps_device_status" ∷ "active" ∷ "created_at" ∷ "updated_at" ∷ []
operations_export_scope_columns devices =
    "id" ∷ "device_code" ∷ "status" ∷ "vendor" ∷ "model" ∷ "adapter_type" ∷ "protocol_type"
    ∷ "serial_number" ∷ "imei" ∷ "vendor_device_identifier" ∷ "installation_state" ∷ "gps_readiness"
    ∷ "gsm_readiness" ∷ "external_power_status" ∷ "battery_status" ∷ "last_heartbeat_at"
    ∷ "last_telemetry_at" ∷ "created_at" ∷ "updated_at" ∷ []
operations_export_scope_columns audit =
    "id" ∷ "actor_type" ∷ "action" ∷ "entity_type" ∷ "entity_id" ∷ "created_at" ∷ "safe_details"
    ∷ []

-- The scope that a text names, where it names one.
abbrev pub find_scope : Text → List OperationsExportScope → Option OperationsExportScope
find_scope text [] = none
find_scope text (scope ∷ scopes) =
    if text_eq text (scope_text scope) then some scope else find_scope text scopes

unfoldable pub operations_export_scope : Option Value → Option OperationsExportScope
operations_export_scope (some (str text)) = find_scope text operations_export_scopes
operations_export_scope _ = none

unfoldable pub is_operations_export_format : Option Value → Bool
unfolding is_text
is_operations_export_format value = is_text "csv" value || is_text "json" value

abbrev pub is_hex : ℕ → Bool
is_hex c = leb 48 c && leb c 57 || (leb 97 c && leb c 102 || (leb 65 c && leb c 70))

unfoldable pub skip_hex : ℕ → Text → Option Text
skip_hex zero text = some text
skip_hex (suc n) [] = none
skip_hex (suc n) (c ∷ text) = let rest = skip_hex n text in if is_hex c then rest else none

unfoldable pub hex_group : ℕ → Text → Option Text
unfolding skip_hex read_char
hex_group n text = and_then (skip_hex n text) (read_char b'-')

abbrev pub is_finished : Option Text → Bool
is_finished (some []) = true
is_finished _ = false

unfoldable pub is_receipt_id : Option Value → Bool
unfolding skip_hex hex_group
is_receipt_id (some (str text)) = is_finished (
    and_then (hex_group 8 text) (λ second. and_then (hex_group 4 second) (λ third.
      and_then (hex_group 4 third) (λ fourth. and_then (hex_group 4 fourth) (skip_hex 12)))))
is_receipt_id _ = false

-- A whole number from 0 to 500.
abbrev pub row_count : Option Value → Option ℕ
row_count (some (num (integer (pos n)))) = if leb n 500 then some n else none
row_count _ = none

abbrev pub boolean : Option Value → Option Bool
boolean (some (bool b)) = some b
boolean _ = none

abbrev pub is_some {ℓ} : {A : Type ℓ} → Option A → Bool
is_some (some a) = true
is_some none = false

abbrev pub same_bool : Bool → Bool → Bool
same_bool true b = b
same_bool false true = false
same_bool false false = true

abbrev pub is_pii_flag : OperationsExportScope → Option Bool → Bool
is_pii_flag scope (some b) = same_bool b (operations_export_scope_contains_pii scope)
is_pii_flag scope none = false

abbrev pub is_date_text : (Text → Bool) → Option Value → Bool
is_date_text is_date (some (str text)) = is_date text
is_date_text is_date _ = false

abbrev pub array : Option Value → Option Items
array (some (arr items)) = some items
array _ = none

-- An object that is no array.
abbrev pub is_object : Option Value → Bool
is_object (some (obj fields)) = true
is_object _ = false

-- The same columns in the same order.
unfoldable pub are_columns : List String → Items → Bool
unfolding is_text
are_columns [] no_items = true
are_columns (column ∷ columns) (item value items) =
    is_text column (some value) && are_columns columns items
are_columns _ _ = false

abbrev pub keys : Fields → List String
keys end = []
keys (field key value rest) = key ∷ keys rest

unfoldable pub has_columns : List String → Value → Bool
unfolding every includes
has_columns columns (obj row) =
    length (keys row) == length columns
    && (every (λ key. includes key columns) (keys row)
        && every (λ column. includes column (keys row)) columns)
has_columns columns _ = false

unfoldable pub check_rows : OperationsExportScope → Option ℕ → Option Items → Option Items → Bool
unfolding are_columns has_columns every
check_rows scope (some count) (some columns) (some rows) =
    are_columns (operations_export_scope_columns scope) columns
    && (count_items rows == count
        && every (has_columns (operations_export_scope_columns scope)) (items_list rows))
check_rows scope _ _ _ = false

-- The checks that need the scope.
unfoldable pub check_scope : OperationsExportScope → (Text → Bool) → Fields → Bool
unfolding is_operations_export_format is_receipt_id check_rows get_field
check_scope scope is_date candidate =
    is_operations_export_format (get_field "format" candidate)
    && (is_receipt_id (get_field "receiptId" candidate)
        && (is_some (boolean (get_field "truncated" candidate))
            && (is_pii_flag scope (boolean (get_field "containsPii" candidate))
                && (is_date_text is_date (get_field "generatedAt" candidate)
                    && (is_object (get_field "filters" candidate)
                        && check_rows scope (row_count (get_field "rowCount" candidate))
                            (array (get_field "columns" candidate))
                            (array (get_field "rows" candidate)))))))

abbrev pub with_scope : Option OperationsExportScope → (Text → Bool) → Fields → Bool
with_scope none is_date candidate = false
with_scope (some scope) is_date candidate = check_scope scope is_date candidate

unfoldable pub validate_operations_export_envelope : (Text → Bool) → Value → Bool
unfolding is_text operations_export_scope get_field check_scope
validate_operations_export_envelope is_date (obj candidate) =
    is_text "m27.operations-export.v1" (get_field "contractVersion" candidate)
    && with_scope (operations_export_scope (get_field "scope" candidate)) is_date candidate
validate_operations_export_envelope is_date _ = false
