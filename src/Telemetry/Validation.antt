-- ===== src/Telemetry/Validation.antt =====
-- physicalTelemetry/validation.ts: the checks of fields and of an observation. A check returns the issues that
-- the source pushes, in its order. `floor` stands for the whole part of a number that is no integer.
pub mod Parts
pub mod Event
pub mod Checked
pub mod Bound
mod Tests
use kootha.Prelude.{
  ℕ, ◌+◌, ◌^◌, Bool, true, false, not, ◌&&◌, ◌||◌, Option, none, some, String, List, [], ◌∷◌, ◌++◌,
  if◌then◌else◌, ltb, leb, ◌==◌, codes, includes, length,
}
use kootha.Prelude.Number.{ℤ, pos, negsuc, Number, integer, fraction, infinity, nan, is_finite}
use kootha.Prelude.Json.{Text, Value, Fields, obj, arr, str, num, bool, null, end, field, get_field}
use kootha.Prelude.Text.{trim, text_eq, is_text}
use kootha.Prelude.Print.{units}
use kootha.Work.Execution.{is_filled}
use kootha.Telemetry.Issue.{
  ValidationIssue, IssueCode, unsupported, invalid_type, invalid_value, out_of_range, too_long,
  unexpected_field, issue_if,
}
use kootha.Telemetry.Timestamp.{parse_strict_utc_iso_timestamp}

abbrev pub is_empty {ℓ} : {A : Type ℓ} → List A → Bool
is_empty [] = true
is_empty (x ∷ xs) = false

abbrev pub observation_fields : List String
observation_fields =
    "contractVersion" ∷ "metric" ∷ "value" ∷ "unit" ∷ "capturedAt" ∷ "deviceExternalId" ∷ "source"
    ∷ "normalizationVersion" ∷ "quality" ∷ "synthetic" ∷ []

unfoldable pub reject_unexpected_fields : Fields → List String → Text → List ValidationIssue
unfolding includes units
reject_unexpected_fields end allowed path = []
reject_unexpected_fields (field key value rest) allowed path =
    issue_if (not (includes key allowed)) (path ++ b'.' ∷ units key) unexpected_field
    ++ reject_unexpected_fields rest allowed path

unfoldable pub validate_text : Option Value → Text → ℕ → List ValidationIssue
unfolding trim
validate_text (some (str text)) path maximum_length =
    if is_filled text
    then issue_if (ltb maximum_length (length text)) path too_long
    else issue_if true path invalid_type
validate_text _ path maximum_length = issue_if true path invalid_type

abbrev pub is_timestamp : Option Value → Bool
is_timestamp (some value) = elim (parse_strict_utc_iso_timestamp value) [
  | some n ↦ true
  | none ↦ false
]
is_timestamp none = false

unfoldable pub validate_iso_timestamp : Option Value → Text → List ValidationIssue
unfolding validate_text parse_strict_utc_iso_timestamp
validate_iso_timestamp value path =
    let issues = validate_text value path 40 in
    if is_empty issues then issue_if (not (is_timestamp value)) path invalid_value else issues

-- `a < b` on integers.
abbrev pub below : ℤ → ℤ → Bool
below (pos a) (pos b) = ltb a b
below (pos a) (negsuc b) = false
below (negsuc a) (pos b) = true
below (negsuc a) (negsuc b) = ltb b a

-- `value < minimum || value > maximum`, the bounds being integers.
abbrev pub is_outside : (ℕ → ℤ) → Number → ℤ → ℤ → Bool
is_outside floor (integer z) minimum maximum = below z minimum || below maximum z
is_outside floor (fraction k) minimum maximum =
    below (floor k) minimum || not (below (floor k) maximum)
is_outside floor _ minimum maximum = true

unfoldable pub validate_finite_range : (ℕ → ℤ) → Option Value → Text → ℤ → ℤ → List ValidationIssue
validate_finite_range floor (some (num n)) path minimum maximum =
    if is_finite n
    then issue_if (is_outside floor n minimum maximum) path out_of_range
    else issue_if true path invalid_type
validate_finite_range floor _ path minimum maximum = issue_if true path invalid_type

abbrev pub is_boolean : Option Value → Bool
is_boolean (some (bool b)) = true
is_boolean _ = false

abbrev pub is_true : Option Value → Bool
is_true (some (bool b)) = b
is_true _ = false

unfoldable pub validate_source_and_synthetic_marker :
    Option Value → Option Value → Text → Text → List ValidationIssue
unfolding is_text
validate_source_and_synthetic_marker source synthetic source_path synthetic_path =
    issue_if (not (is_text "physical_device" source) && not (is_text "simulator" source))
      source_path unsupported
    ++ (if is_boolean synthetic
        then issue_if (is_text "simulator" source && not (is_true synthetic)) synthetic_path
            invalid_value
        else issue_if true synthetic_path invalid_type)

-- The metrics, the check of their unit and of their value.
pub data Metric : Type 0 where
  fuel_level temperature door_state vibration switch unknown_metric : Metric

unfoldable pub metric_of : Option Value → Metric
unfolding is_text
metric_of metric =
    if is_text "fuel_level" metric
    then fuel_level
    else if is_text "temperature" metric
    then temperature
    else if is_text "door_state" metric
    then door_state
    else if is_text "vibration" metric
    then vibration
    else if is_text "external_power" metric
        || (is_text "ignition" metric || is_text "tamper" metric)
    then switch
    else unknown_metric

abbrev pub unit_issue : String → Option Value → List ValidationIssue
unit_issue expected unit = issue_if (not (is_text expected unit)) (codes "$.unit") unsupported

abbrev pub value_path : Text
value_path = codes "$.value"

abbrev pub is_door_state : Option Value → Bool
is_door_state value = is_text "open" value || (is_text "closed" value || is_text "unknown" value)

unfoldable pub validate_metric :
    (ℕ → ℤ) → Metric → Option Value → Option Value → List ValidationIssue
unfolding is_text validate_finite_range
validate_metric floor fuel_level unit value =
    unit_issue "percentage" unit ++ validate_finite_range floor value value_path (pos 0) (pos 100)
validate_metric floor temperature unit value =
    unit_issue "celsius" unit ++ validate_finite_range floor value value_path (negsuc 99) (pos 200)
validate_metric floor door_state unit value =
    unit_issue "state" unit ++ issue_if (not (is_door_state value)) value_path unsupported
validate_metric floor vibration unit value =
    unit_issue "meters_per_second_squared" unit
    ++ validate_finite_range floor value value_path (pos 0) (pos 1000)
validate_metric floor switch unit value =
    unit_issue "boolean" unit ++ issue_if (not (is_boolean value)) value_path invalid_type
validate_metric floor unknown_metric unit value = issue_if true (codes "$.metric") unsupported

abbrev pub is_observation_quality : Option Value → Bool
is_observation_quality quality =
    is_text "good" quality
    || (is_text "degraded" quality || (is_text "unknown" quality || is_text "invalid" quality))

unfoldable pub validate_observation_record : (ℕ → ℤ) → Fields → List ValidationIssue
unfolding reject_unexpected_fields is_text validate_iso_timestamp validate_text
    validate_source_and_synthetic_marker validate_metric metric_of get_field
validate_observation_record floor value =
    reject_unexpected_fields value observation_fields (codes "$")
    ++ (issue_if (not (is_text "1" (get_field "contractVersion" value))) (codes "$.contractVersion")
          unsupported
        ++ (validate_iso_timestamp (get_field "capturedAt" value) (codes "$.capturedAt")
            ++ (validate_text (get_field "deviceExternalId" value) (codes "$.deviceExternalId") 128
                ++ (validate_source_and_synthetic_marker (get_field "source" value)
                      (get_field "synthetic" value) (codes "$.source") (codes "$.synthetic")
                    ++ (validate_text (get_field "normalizationVersion" value)
                          (codes "$.normalizationVersion") 64
                        ++ (issue_if (not (is_observation_quality (get_field "quality" value)))
                              (codes "$.quality") unsupported
                            ++ validate_metric floor (metric_of (get_field "metric" value))
                                (get_field "unit" value) (get_field "value" value)))))))

-- The issues of `validateCanonicalSensorObservationV1`: none if the observation is well formed.
unfoldable pub validate_canonical_sensor_observation : (ℕ → ℤ) → Value → List ValidationIssue
unfolding validate_observation_record
validate_canonical_sensor_observation floor (obj fields) = validate_observation_record floor fields
validate_canonical_sensor_observation floor _ = issue_if true (codes "$") invalid_type
