-- ===== src/Telemetry/EventTime.antt =====
-- physicalTelemetry/eventTime.ts: whether an event that was captured during some work is accepted live,
-- accepted late, or rejected. Times are counts of milliseconds from the start of the year 0 on, in UTC;
-- only their order and their differences matter here.
pub mod Laws
pub mod Accepted
use kootha.Prelude.{
  ℕ, ◌+◌, ◌-◌, ◌*◌, ◌^◌, ◌≤◌, ◌<◌, ◌≡◌, refl, Bool, true, false, not, ◌&&◌, ◌||◌, Option, none,
  some, List, [], ◌∷◌, arith, if◌then◌else◌, ltb, leb, length, ◌==◌,
}
use kootha.Prelude.Number.{ℤ, pos, negsuc, Number, integer}
use kootha.Prelude.Json.{Text, Value, str}
use kootha.Prelude.Text.{trim}
use kootha.Telemetry.Timestamp.{parse_strict_utc_iso_timestamp}

-- `unrecognized` stands for the values that are none of the three.
pub data EvidenceState : Type 0 where
  valid invalid ambiguous unrecognized : EvidenceState

pub record CaptureWindowPolicy : Type 0 where
  pub live_freshness_window_ms : Number
  pub delayed_backfill_window_ms : Number
  pub maximum_future_clock_skew_ms : Number

pub record EventTimeCaptureInput : Type 0 where
  pub idempotency_identity : Text
  pub client_event_id : Option Text
  pub captured_at : Text
  pub received_at : Text
  pub actual_work_started_at : Text
  pub actual_work_ended_at : Option Text
  pub authentication : EvidenceState
  pub event_identity : EvidenceState
  pub device_vehicle_link_at_capture : EvidenceState
  pub ad_work_assignment_at_capture : EvidenceState
  pub work_release_at_capture : EvidenceState
  pub timestamp_evidence : EvidenceState
  pub clock_offset_evidence : EvidenceState
  pub sequence_replay_evidence : EvidenceState

pub data ReasonCode : Type 0 where
  authentication_failed event_identity_invalid device_vehicle_link_invalid : ReasonCode
  ad_work_assignment_invalid work_not_released captured_time_invalid sequence_replay_invalid :
      ReasonCode
  event_time_evidence_ambiguous captured_before_work_start captured_after_work_end : ReasonCode
  captured_time_future_skew delayed_backfill_expired : ReasonCode
  inside_live_freshness_window inside_delayed_backfill_window : ReasonCode

pub data CaptureDisposition : Type 0 where
  accepted_live accepted_delayed rejected : CaptureDisposition

pub data Freshness : Type 0 where
  live degraded_freshness not_applicable : Freshness

pub data ProcessingQuality : Type 0 where
  fully_valid degraded quality_rejected : ProcessingQuality

-- Without the two fields that are the same in each decision.
pub record CaptureWindowDecision : Type 0 where
  pub idempotency_identity : Text
  pub client_event_id : Option Text
  pub disposition : CaptureDisposition
  pub reason_code : ReasonCode
  pub freshness : Freshness
  pub delayed : Bool
  pub offline_backfill : Bool
  pub quality : ProcessingQuality

-- The disposition and its reason, before they are written out.
pub data Verdict : Type 0 where
  reject : ReasonCode → Verdict
  accept_live accept_delayed : Verdict

abbrev pub decision : EventTimeCaptureInput → Verdict → CaptureWindowDecision
decision input (reject reason) = record {
  idempotency_identity = input.idempotency_identity;
  client_event_id = input.client_event_id;
  disposition = rejected;
  reason_code = reason;
  freshness = not_applicable;
  delayed = false;
  offline_backfill = false;
  quality = quality_rejected;
}
decision input accept_live = record {
  idempotency_identity = input.idempotency_identity;
  client_event_id = input.client_event_id;
  disposition = accepted_live;
  reason_code = inside_live_freshness_window;
  freshness = live;
  delayed = false;
  offline_backfill = false;
  quality = fully_valid;
}
decision input accept_delayed = record {
  idempotency_identity = input.idempotency_identity;
  client_event_id = input.client_event_id;
  disposition = accepted_delayed;
  reason_code = inside_delayed_backfill_window;
  freshness = degraded_freshness;
  delayed = true;
  offline_backfill = true;
  quality = degraded;
}

-- A policy whose windows are safe integers from 0 on, as numbers.
pub record Windows : Type 0 where
  pub live_ms : ℕ
  pub delayed_ms : ℕ
  pub skew_ms : ℕ

abbrev pub safe_natural : Number → Option ℕ
safe_natural (integer (pos n)) = if ltb n (2 ^ 53) then some n else none
safe_natural _ = none

unfoldable pub has_valid_policy : CaptureWindowPolicy → Option Windows
has_valid_policy policy = elim (safe_natural policy.live_freshness_window_ms) [
  | none ↦ none
  | some l ↦ elim (safe_natural policy.delayed_backfill_window_ms) [
    | none ↦ none
    | some d ↦ elim (safe_natural policy.maximum_future_clock_skew_ms) [
      | none ↦ none
      | some s ↦ some (record { live_ms = l; delayed_ms = d; skew_ms = s })
    ]
  ]
]

-- `INVALID_REASON_BY_EVIDENCE`, with the input's states.
abbrev pub evidence : EventTimeCaptureInput → List (EvidenceState × ReasonCode)
evidence input =
    (input.authentication, authentication_failed)
    ∷ (input.event_identity, event_identity_invalid)
    ∷ (input.device_vehicle_link_at_capture, device_vehicle_link_invalid)
    ∷ (input.ad_work_assignment_at_capture, ad_work_assignment_invalid)
    ∷ (input.work_release_at_capture, work_not_released)
    ∷ (input.timestamp_evidence, captured_time_invalid)
    ∷ (input.clock_offset_evidence, captured_time_invalid)
    ∷ (input.sequence_replay_evidence, sequence_replay_invalid)
    ∷ []

-- The loop over the evidence: the first reason to reject.
unfoldable pub check_evidence : List (EvidenceState × ReasonCode) → Option ReasonCode
check_evidence [] = none
check_evidence ((valid, reason) ∷ rest) = check_evidence rest
check_evidence ((invalid, reason) ∷ rest) = some reason
check_evidence ((ambiguous, reason) ∷ rest) = some event_time_evidence_ambiguous
check_evidence ((unrecognized, reason) ∷ rest) = some event_time_evidence_ambiguous

-- The four instants, the end of the work `none` while it goes on.
pub record Instants : Type 0 where
  pub captured : ℕ
  pub received : ℕ
  pub started : ℕ
  pub work_end : Option ℕ

abbrev pub is_before_end : ℕ → Option ℕ → Bool
is_before_end t none = true
is_before_end t (some e) = leb t e

abbrev pub backfill_cutoff : Windows → Instants → ℕ
backfill_cutoff w t = elim t.work_end [
  | none ↦ t.captured + w.delayed_ms
  | some e ↦ e + w.delayed_ms
]

-- The comparisons after the evidence.
unfoldable pub compare_instants : Windows → Instants → Verdict
compare_instants w t =
    if ltb t.captured t.started
    then reject captured_before_work_start
    else if not (is_before_end t.captured t.work_end)
    then reject captured_after_work_end
    else if ltb (t.received + w.skew_ms) t.captured
    then reject captured_time_future_skew
    else if is_before_end t.received t.work_end && leb (t.received - t.captured) w.live_ms
    then accept_live
    else if leb t.received (backfill_cutoff w t)
    then accept_delayed
    else reject delayed_backfill_expired

-- The parsed end: `none` where it is given and does not parse.
abbrev pub parsed_end : Option Text → Option (Option ℕ)
parsed_end none = some none
parsed_end (some text) = elim (parse_strict_utc_iso_timestamp (str text)) [
  | none ↦ none
  | some e ↦ some (some e)
]

abbrev pub is_ordered : ℕ → Option ℕ → Bool
is_ordered s none = true
is_ordered s (some e) = leb s e

unfoldable pub parse_instants : EventTimeCaptureInput → Option Instants
parse_instants input = elim (parse_strict_utc_iso_timestamp (str input.captured_at)) [
  | none ↦ none
  | some c ↦ elim (parse_strict_utc_iso_timestamp (str input.received_at)) [
    | none ↦ none
    | some r ↦ elim (parse_strict_utc_iso_timestamp (str input.actual_work_started_at)) [
      | none ↦ none
      | some s ↦ elim (parsed_end input.actual_work_ended_at) [
        | none ↦ none
        | some e ↦
            if is_ordered s e
            then some (record { captured = c; received = r; started = s; work_end = e })
            else none
      ]
    ]
  ]
]

abbrev pub judge : EventTimeCaptureInput → Option Windows → Option Instants → Verdict
judge input none t = reject captured_time_invalid
judge input (some w) none = reject captured_time_invalid
judge input (some w) (some t) =
    if length (trim input.idempotency_identity) == 0
    then reject captured_time_invalid
    else elim (check_evidence (evidence input)) [
      | some reason ↦ reject reason
      | none ↦ compare_instants w t
    ]

unfoldable pub decide_capture_window :
    EventTimeCaptureInput → CaptureWindowPolicy → CaptureWindowDecision
decide_capture_window input policy =
    decision input (judge input (has_valid_policy policy) (parse_instants input))
