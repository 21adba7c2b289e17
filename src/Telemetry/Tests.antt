-- ===== src/Telemetry/Tests.antt =====
-- Timestamps and capture windows at concrete texts.
use kootha.Prelude.{◌↔◌, ◌+◌, ◌*◌, ◌≤◌, ◌≡◌, refl, true, none, some, codes, arith}
use kootha.Prelude.Number.{integer, pos}
use kootha.Prelude.Json.{Text, str}
use kootha.Prelude.Text.{trim, trim_start, is_space}
use kootha.Telemetry.Calendar.{
  to_ms, from_ms, is_leap, days_of_years, days_of_months, month_length, find_year, find_month,
}
use kootha.Telemetry.Timestamp.{
  parse_strict_utc_iso_timestamp, match_strict_utc_iso, check_date_time, is_parsed, same_date_time,
  read_digits, read_char, read_field, read_end, read_fraction,
}
use kootha.Telemetry.Timestamp.Exact.{is_real}
use kootha.Telemetry.Timestamp.Reading.{parse_strict_utc_iso_timestamp_lem}
use kootha.Telemetry.EventTime.{
  EventTimeCaptureInput, CaptureWindowPolicy, valid, accepted_live, decide_capture_window,
  has_valid_policy, parse_instants, check_evidence, compare_instants,
}
use kootha.Telemetry.EventTime.Laws.{later_receipt, is_accepted, rank}
use kootha.Telemetry.EventTime.Accepted.{IsAdmissible, decide_capture_window_lem}

-- The 30th of February is no instant, the 29th of a leap year is one.
no_feb_30 : parse_strict_utc_iso_timestamp (str (codes "0004-02-30T00:00:00Z")) ≡ none
unfolding parse_strict_utc_iso_timestamp match_strict_utc_iso check_date_time is_parsed
    same_date_time read_digits read_char read_field read_end read_fraction to_ms from_ms is_leap
    days_of_years days_of_months find_year find_month
no_feb_30 = refl

feb_29 :
    parse_strict_utc_iso_timestamp (str (codes "0004-02-29T00:00:00.5Z"))
    ≡ some ((366 + 3 * 365 + 31 + 28) * 86400000 + 500)
unfolding parse_strict_utc_iso_timestamp match_strict_utc_iso check_date_time is_parsed
    same_date_time read_digits read_char read_field read_end read_fraction to_ms from_ms is_leap
    days_of_years days_of_months find_year find_month
feb_29 = refl

parse_strict_utc_iso_timestamp_lem_example :
    parse_strict_utc_iso_timestamp (str (codes "0004-02-30T00:00:00Z")) ≡ none
unfolding match_strict_utc_iso is_real is_leap month_length read_digits read_char read_field
    read_end read_fraction
parse_strict_utc_iso_timestamp_lem_example =
    parse_strict_utc_iso_timestamp_lem (codes "0004-02-30T00:00:00Z")

abbrev capture : EventTimeCaptureInput
capture = record {
  idempotency_identity = codes "gps-1:7";
  client_event_id = none;
  captured_at = codes "0001-01-01T09:00:00Z";
  received_at = codes "0001-01-01T09:00:05Z";
  actual_work_started_at = codes "0001-01-01T08:00:00Z";
  actual_work_ended_at = some (codes "0001-01-01T17:00:00Z");
  authentication = valid;
  event_identity = valid;
  device_vehicle_link_at_capture = valid;
  ad_work_assignment_at_capture = valid;
  work_release_at_capture = valid;
  timestamp_evidence = valid;
  clock_offset_evidence = valid;
  sequence_replay_evidence = valid;
}

abbrev policy : CaptureWindowPolicy
policy = record {
  live_freshness_window_ms = integer (pos 60000);
  delayed_backfill_window_ms = integer (pos 86400000);
  maximum_future_clock_skew_ms = integer (pos 1000);
}

abbrev next_day : Text
next_day = codes "0001-01-02T09:00:00Z"

live_capture : (decide_capture_window capture policy).disposition ≡ accepted_live
unfolding decide_capture_window has_valid_policy parse_instants check_evidence compare_instants trim
    trim_start is_space parse_strict_utc_iso_timestamp match_strict_utc_iso check_date_time
    is_parsed same_date_time read_digits read_char read_field read_end read_fraction to_ms from_ms
    is_leap days_of_years days_of_months find_year find_month
live_capture = refl

decide_capture_window_lem_example :
    (is_accepted (decide_capture_window capture policy).disposition ≡ true)
    ↔ IsAdmissible capture policy
decide_capture_window_lem_example = decide_capture_window_lem capture policy

later_receipt_example :
    rank (decide_capture_window (record capture { received_at = next_day }) policy).disposition
    ≤ rank (decide_capture_window capture policy).disposition
unfolding decide_capture_window has_valid_policy parse_instants check_evidence compare_instants trim
    trim_start is_space parse_strict_utc_iso_timestamp match_strict_utc_iso check_date_time
    is_parsed same_date_time read_digits read_char read_field read_end read_fraction to_ms from_ms
    is_leap days_of_years days_of_months find_year find_month
later_receipt_example =
    later_receipt capture next_day policy ((366 * 24 + 9) * 3600000 + 5000)
      ((367 * 24 + 9) * 3600000) refl refl (omega arith) refl
