-- ===== src/Telemetry/Validation/Parts.antt =====
-- validation.ts: the checks of an event's parts.
use kootha.Prelude.{
  ℕ, suc, Bool, true, false, not, ◌||◌, Option, none, some, String, List, [], ◌∷◌, ◌++◌, ◌==◌,
  codes,
}
use kootha.Prelude.Number.{ℤ, pos, negsuc, Number, integer, fraction, infinity}
use kootha.Prelude.Json.{
  Text, Value, Fields, obj, arr, str, num, bool, null, Items, no_items, item, get_field,
}
use kootha.Prelude.Text.{text_eq, is_text}
use kootha.Prelude.Print.{decimal}
use kootha.Telemetry.Issue.{ValidationIssue, unsupported, invalid_type, invalid_value, issue_if}
use kootha.Telemetry.Validation.{
  is_empty, reject_unexpected_fields, validate_text, validate_finite_range, is_boolean,
}

-- `if (value !== undefined) check(value)`.
abbrev pub if_defined : Option Value → (Option Value → List ValidationIssue) → List ValidationIssue
if_defined none check = []
if_defined (some value) check = check (some value)

-- The check of a part that must be an object.
abbrev pub if_object : Option Value → Text → (Fields → List ValidationIssue) → List ValidationIssue
if_object (some (obj fields)) path check = check fields
if_object _ path check = issue_if true path invalid_type

abbrev pub is_integer : Option Value → Bool
is_integer (some (num (integer z))) = true
is_integer _ = false

unfoldable pub validate_satellites : (ℕ → ℤ) → Option Value → List ValidationIssue
unfolding validate_finite_range
validate_satellites floor value =
    let path = codes "$.position.satellites" in
    let issues = validate_finite_range floor value path (pos 0) (pos 256) in
    issues ++ issue_if (not (is_empty issues) || not (is_integer value)) path invalid_value

abbrev pub range : (ℕ → ℤ) → String → ℤ → ℤ → Option Value → List ValidationIssue
range floor path minimum maximum value =
    validate_finite_range floor value (codes path) minimum maximum

unfoldable pub validate_position : (ℕ → ℤ) → Fields → List ValidationIssue
unfolding reject_unexpected_fields validate_finite_range validate_satellites get_field
validate_position floor value =
    reject_unexpected_fields value
      ("latitude" ∷ "longitude" ∷ "altitudeMeters" ∷ "accuracyMeters" ∷ "speedMetersPerSecond"
        ∷ "headingDegrees" ∷ "satellites" ∷ [])
      (codes "$.position")
    ++ (range floor "$.position.latitude" (negsuc 89) (pos 90) (get_field "latitude" value)
        ++ (range floor "$.position.longitude" (negsuc 179) (pos 180) (get_field "longitude" value)
            ++ (if_defined (get_field "altitudeMeters" value)
                  (range floor "$.position.altitudeMeters" (negsuc 999) (pos 20000))
                ++ (if_defined (get_field "accuracyMeters" value)
                      (range floor "$.position.accuracyMeters" (pos 0) (pos 100000))
                    ++ (if_defined (get_field "speedMetersPerSecond" value)
                          (range floor "$.position.speedMetersPerSecond" (pos 0) (pos 200))
                        ++ (if_defined (get_field "headingDegrees" value)
                              (range floor "$.position.headingDegrees" (pos 0) (pos 360))
                            ++ if_defined (get_field "satellites" value)
                                (validate_satellites floor)))))))

abbrev pub is_gps_fix : Option Value → Bool
is_gps_fix value =
    is_text "none" value || (is_text "two_dimensional" value || is_text "three_dimensional" value)

unfoldable pub validate_health : (ℕ → ℤ) → Fields → List ValidationIssue
unfolding reject_unexpected_fields validate_finite_range validate_text is_text get_field
validate_health floor value =
    reject_unexpected_fields value
      ("heartbeat" ∷ "batteryPercent" ∷ "externalPower" ∷ "firmwareVersion" ∷ "gpsFix"
        ∷ "gsmSignalDbm" ∷ [])
      (codes "$.health")
    ++ (issue_if (not (is_boolean (get_field "heartbeat" value))) (codes "$.health.heartbeat")
          invalid_type
        ++ (if_defined (get_field "batteryPercent" value)
              (range floor "$.health.batteryPercent" (pos 0) (pos 100))
            ++ (if_defined (get_field "externalPower" value) (λ power.
                  issue_if (not (is_boolean power)) (codes "$.health.externalPower") invalid_type)
                ++ (if_defined (get_field "firmwareVersion" value)
                      (λ version. validate_text version (codes "$.health.firmwareVersion") 64)
                    ++ (if_defined (get_field "gpsFix" value) (λ fix.
                          issue_if (not (is_gps_fix fix)) (codes "$.health.gpsFix") unsupported)
                        ++ if_defined (get_field "gsmSignalDbm" value)
                            (range floor "$.health.gsmSignalDbm" (negsuc 199) (pos 0)))))))

-- `a === b`: objects are the same only if they are one object, which two fields of a parsed value are
-- not.
abbrev pub same_number : Number → Number → Bool
same_number (integer (pos a)) (integer (pos b)) = a == b
same_number (integer (negsuc a)) (integer (negsuc b)) = a == b
same_number (fraction a) (fraction b) = a == b
same_number infinity infinity = true
same_number _ _ = false

abbrev pub same_truth : Bool → Bool → Bool
same_truth true b = b
same_truth false b = not b

unfoldable pub is_same : Option Value → Option Value → Bool
is_same none none = true
is_same (some null) (some null) = true
is_same (some (str a)) (some (str b)) = text_eq a b
is_same (some (num a)) (some (num b)) = same_number a b
is_same (some (bool a)) (some (bool b)) = same_truth a b
is_same _ _ = false

unfoldable pub observation_path : ℕ → Text → Text
unfolding decimal
observation_path index rest = codes "$.observations[" ++ (decimal index ++ (b']' ∷ rest))

-- The bindings of one observation to its event and the event's provenance.
unfoldable pub validate_binding : Fields → Fields → ℕ → Fields → List ValidationIssue
unfolding is_same observation_path get_field
validate_binding event provenance index observation =
    issue_if
      (not
        (is_same (get_field "deviceExternalId" observation) (get_field "deviceExternalId" event)))
      (observation_path index (codes ".deviceExternalId")) invalid_value
    ++ (issue_if (not (is_same (get_field "source" observation) (get_field "source" provenance)))
          (observation_path index (codes ".source")) invalid_value
        ++ (issue_if
              (not (is_same (get_field "synthetic" observation) (get_field "synthetic" provenance)))
              (observation_path index (codes ".synthetic")) invalid_value
            ++ (issue_if
                  (not
                    (is_same (get_field "capturedAt" observation) (get_field "capturedAt" event)))
                  (observation_path index (codes ".capturedAt")) invalid_value
                ++ issue_if
                    (not (
                      is_same (get_field "normalizationVersion" observation)
                        (get_field "normalizationVersion" provenance)))
                    (observation_path index (codes ".normalizationVersion")) invalid_value)))

abbrev pub bind_observation : Fields → Fields → ℕ → Value → List ValidationIssue
bind_observation event provenance index (obj observation) =
    validate_binding event provenance index observation
bind_observation event provenance index _ = []

unfoldable pub bind_observations : Fields → Fields → ℕ → Items → List ValidationIssue
unfolding validate_binding
bind_observations event provenance index no_items = []
bind_observations event provenance index (item observation rest) =
    bind_observation event provenance index observation
    ++ bind_observations event provenance (suc index) rest

unfoldable pub validate_observation_bindings :
    Fields → Option Value → Option Value → List ValidationIssue
unfolding bind_observations
validate_observation_bindings event (some (arr observations)) (some (obj provenance)) =
    bind_observations event provenance 0 observations
validate_observation_bindings event _ _ = []
