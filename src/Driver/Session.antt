-- ===== src/Driver/Session.antt =====
-- apps/driver/src/locationProof.ts: the status of tracking after a sync and after an action on the work,
-- whether the phone captures a point, which failures are tried again, and the ids of repeated requests.
use kootha.Prelude.{
  ℕ, ◌≡◌, refl, Bool, true, false, not, ◌&&◌, ◌||◌, Option, none, some, String, arith,
  if◌then◌else◌, ltb, leb, ◌==◌, str_eq, str_eq_refl,
}
use kootha.Statuses.{AdWorkExecutionDayStatus, TrackingSessionStatus, TrackingHealthStatus}
use kootha.Work.Execution.{DriverExecutionAction, take_break, finish, issue}
use kootha.Work.Tracking.{is_running}

-- `status` is a status code of HTTP.
unfoldable pub is_retryable_driver_api_status : ℕ → Bool
is_retryable_driver_api_status status =
    status == 408 || (status == 425 || (status == 429 || leb 500 status))

-- What a request of the driver's phone ends with: an answer with a status, no answer in time, an error of
-- the network (a `TypeError`), or another error.
pub data Failure : Type 0 where
  api_error : Option ℕ → Failure
  type_error other_error : Failure

-- The `retryable` of a `DriverApiError`.
abbrev pub is_retryable_error : Option ℕ → Bool
is_retryable_error none = true
is_retryable_error (some status) = is_retryable_driver_api_status status

unfoldable pub should_buffer_location_failure : Failure → Bool
should_buffer_location_failure (api_error status) = is_retryable_error status
should_buffer_location_failure type_error = true
should_buffer_location_failure other_error = true

unfoldable pub should_reconcile_work_mutation_failure : Failure → Bool
should_reconcile_work_mutation_failure (api_error status) = true
should_reconcile_work_mutation_failure type_error = true
should_reconcile_work_mutation_failure other_error = false

pub record IdempotencyAttempt : Type 0 where
  pub fingerprint : String
  pub request_id : String

-- `request_id` is what `createRequestId` returns if it is called.
unfoldable pub get_idempotency_attempt :
    Option IdempotencyAttempt → String → String → IdempotencyAttempt
get_idempotency_attempt none fingerprint request_id = record {
  fingerprint = fingerprint;
  request_id = request_id;
}
get_idempotency_attempt (some current) fingerprint request_id =
    if str_eq current.fingerprint fingerprint
    then current
    else record { fingerprint = fingerprint; request_id = request_id }

abbrev pub place : TrackingSessionStatus → ℕ
place status = elim status [
  | TrackingSessionStatus.not_started ↦ 0
  | TrackingSessionStatus.running ↦ 1
  | TrackingSessionStatus.paused ↦ 2
  | TrackingSessionStatus.stopped ↦ 3
  | TrackingSessionStatus.completed ↦ 4
  | TrackingSessionStatus.failed ↦ 5
  | TrackingSessionStatus.permission_missing ↦ 6
]

abbrev pub same_tracking : TrackingSessionStatus → TrackingSessionStatus → Bool
same_tracking s t = place s == place t

pub record SyncOutcome : Type 0 where
  pub execution_status : AdWorkExecutionDayStatus
  pub request_tracking_status : TrackingSessionStatus
  pub current_tracking_status : TrackingSessionStatus
  pub failed_count : ℕ
  pub accepted_count : ℕ
  pub tracking_health_status : TrackingHealthStatus

abbrev pub is_sync_failed : TrackingHealthStatus → Bool
is_sync_failed status = elim status [ TrackingHealthStatus.sync_failed ↦ true | _ ↦ false ]

unfoldable pub get_location_status_after_successful_sync : SyncOutcome → TrackingSessionStatus
get_location_status_after_successful_sync input =
    if not (same_tracking input.current_tracking_status input.request_tracking_status)
    then input.current_tracking_status
    else if is_running input.execution_status
        && (input.failed_count == 0
            && (ltb 0 input.accepted_count && not (is_sync_failed input.tracking_health_status)))
    then TrackingSessionStatus.running
    else input.current_tracking_status

unfoldable pub get_location_status_after_work_action :
    DriverExecutionAction → TrackingSessionStatus → TrackingSessionStatus
get_location_status_after_work_action action current = elim action [
  | take_break ↦ TrackingSessionStatus.paused
  | finish ↦ TrackingSessionStatus.stopped
  | issue ↦ TrackingSessionStatus.stopped
  | _ ↦ current
]

pub record ForegroundLocationContext : Type 0 where
  pub location_proof_required : Bool
  pub tracking_session_id : Option String
  pub tracking_status : TrackingSessionStatus
  pub execution_status : AdWorkExecutionDayStatus

pub data ForegroundLocationDecision : Type 0 where
  capture inactive permission_missing : ForegroundLocationDecision

abbrev pub has_session : Option String → Bool
has_session none = false
has_session (some id) = not (str_eq id "")

unfoldable pub get_foreground_location_decision :
    ForegroundLocationContext → Bool → ForegroundLocationDecision
get_foreground_location_decision ctx permission_granted =
    if not (
      ctx.location_proof_required
      && (has_session ctx.tracking_session_id
          && (same_tracking ctx.tracking_status TrackingSessionStatus.running
              && is_running ctx.execution_status)))
    then inactive
    else if permission_granted
    then capture
    else permission_missing

abbrev pub is_capture : ForegroundLocationDecision → Bool
is_capture decision = elim decision [ capture ↦ true | _ ↦ false ]

-- The actions that end or interrupt work.
abbrev pub interrupts : DriverExecutionAction → Bool
interrupts action = elim action [ take_break ↦ true | finish ↦ true | issue ↦ true | _ ↦ false ]

-- After a break, an end or an issue the phone captures no point, whatever was tracked before; and after
-- any other action exactly where it did before.
pub get_foreground_location_decision-get_location_status_after_work_action :
    (ctx : ForegroundLocationContext) (action : DriverExecutionAction) (granted : Bool)
    → is_capture (
        get_foreground_location_decision
          (record ctx {
            tracking_status = get_location_status_after_work_action action ctx.tracking_status;
          })
          granted)
      ≡ (not (interrupts action) && is_capture (get_foreground_location_decision ctx granted))
unfolding get_foreground_location_decision get_location_status_after_work_action
get_foreground_location_decision-get_location_status_after_work_action ctx action granted =
    ground arith

-- A sync that was sent while the tracking ran does not take back an action of the driver: if a break, an
-- end or an issue comes while the points are on their way, then the phone captures no point afterwards,
-- whatever the server answers.
pub get_foreground_location_decision-get_location_status_after_successful_sync :
    (ctx : ForegroundLocationContext) (outcome : SyncOutcome) (action : DriverExecutionAction)
    (granted : Bool)
    → outcome.request_tracking_status ≡ TrackingSessionStatus.running
    → interrupts action ≡ true
    → get_foreground_location_decision
        (record ctx {
          tracking_status = get_location_status_after_successful_sync (record outcome {
            current_tracking_status =
                get_location_status_after_work_action action outcome.request_tracking_status;
          });
        })
        granted
      ≡ inactive
unfolding get_foreground_location_decision get_location_status_after_work_action
    get_location_status_after_successful_sync
get_foreground_location_decision-get_location_status_after_successful_sync ctx outcome action
      granted h k =
    ground (arith, h, k)

-- Asked again for the same content, the id of the first request is used again, whatever new id is at
-- hand; so a request that is repeated is the same request.
pub get_idempotency_attempt_lem :
    (current : Option IdempotencyAttempt) (fingerprint first second : String)
    → get_idempotency_attempt
        (some (get_idempotency_attempt current fingerprint first))
        fingerprint
        second
      ≡ get_idempotency_attempt current fingerprint first
unfolding get_idempotency_attempt
get_idempotency_attempt_lem none fingerprint first second = rw (str_eq_refl fingerprint) refl
get_idempotency_attempt_lem (some current) fingerprint first second =
    ground (arith, str_eq_refl fingerprint)
