-- ===== src/Host/Reply.antt =====
-- The responses of http-host-v2.ts, and what it reports about each event.
use kootha.Prelude.{
  ℕ, ◌-◌, Bool, true, false, not, ◌&&◌, Option, none, some, List, String, ltb, leb, ◌==◌,
  if◌then◌else◌, take, length, any, filter,
}
use kootha.Prelude.Number.{ℤ, pos, negsuc}
use kootha.Prelude.Json.{Text, Value, str, obj, get_field}
use kootha.Prelude.Text.{has_control}

pub data Disposition : Type 0 where
  accepted_live accepted_delayed health_only duplicate duplicate_conflict rejected : Disposition

pub record SafeTelemetryEventResult : Type 0 where
  pub client_event_id : Option Text
  pub source_event_id : Option Text
  pub disposition : Disposition
  pub reason_code : Text
  pub retryable : Bool

-- The reasons of the rejected requests.
pub data Reason : Type 0 where
  method_not_allowed unsupported_media_type content_encoding_unsupported request_malformed : Reason
  request_too_large rate_limited authentication_failed event_limit_exceeded : Reason
  request_schema_invalid temporarily_unavailable : Reason

pub data BatchStatus : Type 0 where
  accepted partially_accepted all_rejected : BatchStatus

pub record Summary : Type 0 where
  pub status : BatchStatus
  pub accepted_count : ℕ
  pub rejected_count : ℕ
  pub retryable : Bool
  pub results : List SafeTelemetryEventResult

-- A refusal with its status, reason, `retryable` and `retry-after`, or the report on a batch.
pub data Response : Type 0 where
  error : ℕ → Reason → Bool → Option ℕ → Response
  report : Summary → Response

abbrev pub status_of : Response → ℕ
status_of (error status reason retryable after) = status
status_of (report summary) = 202

-- `retryAfter`, on what `Math.ceil` makes of the seconds: `none` if they are not finite.
unfoldable pub retry_after : Option ℤ → ℕ
retry_after none = 60
retry_after (some (negsuc n)) = 1
retry_after (some (pos n)) = if ltb n 1 then 1 else if ltb 3600 n then 3600 else n

abbrev option_take : ℕ → Option Text → Option Text
option_take n none = none
option_take n (some text) = some (take n text)

unfoldable pub safe_result : SafeTelemetryEventResult → SafeTelemetryEventResult
safe_result result = record {
  client_event_id = option_take 128 result.client_event_id;
  source_event_id = option_take 128 result.source_event_id;
  disposition = result.disposition;
  reason_code = take 64 result.reason_code;
  retryable = result.retryable;
}

safe_text : Option Value → Option Text
safe_text (some (str text)) =
    if ltb 0 (length text) && (leb (length text) 128 && not (has_control text))
    then some text
    else none
safe_text _ = none

unfoldable pub safe_reference : Value → String → Option Text
unfolding safe_text
safe_reference (obj fields) key = safe_text (get_field key fields)
safe_reference _ key = none

abbrev pub is_rejection : SafeTelemetryEventResult → Bool
is_rejection result = elim result.disposition [
  | rejected ↦ true
  | duplicate_conflict ↦ true
  | _ ↦ false
]

-- The report at the end of the handler.
unfoldable pub summarize : List SafeTelemetryEventResult → Summary
summarize results =
    let rejected_count = length (filter is_rejection results) in
    let accepted_count = length results - rejected_count in
    record {
      status =
          if rejected_count == 0
          then accepted
          else if accepted_count == 0
          then all_rejected
          else partially_accepted;
      accepted_count = accepted_count;
      rejected_count = rejected_count;
      retryable = any (λ result. result.retryable) results;
      results = results;
    }
