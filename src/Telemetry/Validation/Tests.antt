-- ===== src/Telemetry/Validation/Tests.antt =====
-- A valid event with one observation, and one that names another device.
use kootha.Prelude.{ℕ, ◌≡◌, refl, true, [], ◌∷◌, codes}
use kootha.Prelude.Number.{ℤ, pos, fraction}
use kootha.Prelude.Json.{Text, Value, Fields, obj, arr, str, num, bool, field, end, item, no_items}
use kootha.Prelude.Result.{ok, err}
use kootha.Telemetry.Issue.{IssueCode}
use kootha.Telemetry.Timestamp.{
  match_strict_utc_iso, read_field, read_end, check_date_time, is_parsed, same_date_time,
}
use kootha.Telemetry.Calendar.{
  from_ms, find_year, to_ms, days_of_years, is_leap, days_of_months, find_month,
}
use kootha.Telemetry.Validation.Event.{validate_canonical_telemetry_event}
use kootha.Telemetry.Validation.Bound.{IsCanonical, validate_canonical_telemetry_event-IsCanonical}

-- The whole part of the numbers 0.5, 1.5 and so on.
abbrev floor : ℕ → ℤ
floor k = pos k

abbrev time : Value
time = str (codes "0001-01-02T09:00:00Z")

abbrev observed : Text → Value
observed device = obj (
    field "contractVersion" (str (codes "1")) (
      field "metric" (str (codes "fuel_level")) (
        field "value" (num (fraction 40)) (
          field "unit" (str (codes "percentage")) (
            field "capturedAt" time (
              field "deviceExternalId" (str device) (
                field "source" (str (codes "simulator")) (
                  field "normalizationVersion" (str (codes "n1")) (
                    field "quality" (str (codes "good"))
                      (field "synthetic" (bool true) end))))))))))

abbrev event : Text → Fields
event device = field "contractVersion" (str (codes "1")) (
    field "canonicalEventId" (str (codes "c1")) (
      field "idempotencyIdentity" (str (codes "i1")) (
        field "deviceExternalId" (str (codes "d1")) (
          field "authenticatedDeviceExternalId" (str (codes "d1")) (
            field "adapter"
              (obj (field "id" (str (codes "a")) (field "version" (str (codes "1")) end)))
              (field "capturedAt" time (
                field "receivedAt" time (
                  field "normalizedAt" time (
                    field "observations" (arr (item (observed device) no_items)) (
                      field "quality" (str (codes "valid")) (
                        field "provenance"
                          (obj (
                            field "source" (str (codes "simulator")) (
                              field "normalizationVersion" (str (codes "n1")) (
                                field "synthetic" (bool true) (
                                  field "rawPayloadHash" (str (codes "r"))
                                    (field "canonicalPayloadHash" (str (codes "h")) end))))))
                          end)))))))))))

valid :
    validate_canonical_telemetry_event floor (obj (event (codes "d1"))) ≡ ok (event (codes "d1"))
unfolding validate_canonical_telemetry_event match_strict_utc_iso read_field read_end
    check_date_time is_parsed same_date_time from_ms find_year to_ms days_of_years is_leap
    days_of_months find_month
valid = refl

other_device :
    validate_canonical_telemetry_event floor (obj (event (codes "d2")))
    ≡ err (
        record { path = codes "$.observations[0].deviceExternalId"; code = IssueCode.invalid_value }
        ∷ [])
unfolding validate_canonical_telemetry_event match_strict_utc_iso read_field read_end
    check_date_time is_parsed same_date_time from_ms find_year to_ms days_of_years is_leap
    days_of_months find_month
other_device = refl

validate_canonical_telemetry_event-IsCanonical_example :
    IsCanonical floor (event (codes "d1")) × (obj (event (codes "d1")) ≡ obj (event (codes "d1")))
validate_canonical_telemetry_event-IsCanonical_example =
    validate_canonical_telemetry_event-IsCanonical floor (obj (event (codes "d1")))
      (event (codes "d1")) valid
