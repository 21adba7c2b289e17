-- ===== src/Driver/Tests.antt =====
-- The tracking of the driver app at concrete statuses.
use kootha.Prelude.{◌≡◌, refl, true, false, none, some}
use kootha.Statuses.{AdWorkExecutionDayStatus, TrackingSessionStatus, TrackingHealthStatus}
use kootha.Work.Execution.{take_break}
use kootha.Driver.Session.{
  ForegroundLocationContext, SyncOutcome, get_foreground_location_decision, is_capture,
  get_location_status_after_work_action, get_location_status_after_successful_sync,
  get_idempotency_attempt, capture,
  get_foreground_location_decision-get_location_status_after_work_action,
  get_foreground_location_decision-get_location_status_after_successful_sync, inactive,
  get_idempotency_attempt_lem,
}

abbrev tracked : ForegroundLocationContext
tracked = record {
  location_proof_required = true;
  tracking_session_id = some "session";
  tracking_status = TrackingSessionStatus.running;
  execution_status = AdWorkExecutionDayStatus.running;
}

captured : get_foreground_location_decision tracked true ≡ capture
unfolding get_foreground_location_decision
captured = refl

get_foreground_location_decision-get_location_status_after_work_action_example :
    is_capture (
      get_foreground_location_decision
        (record tracked {
          tracking_status =
              get_location_status_after_work_action take_break tracked.tracking_status;
        })
        true)
    ≡ false
get_foreground_location_decision-get_location_status_after_work_action_example =
    get_foreground_location_decision-get_location_status_after_work_action tracked take_break true

-- A sync that was sent while the tracking ran, and all of whose points are accepted.
abbrev sent : SyncOutcome
sent = record {
  execution_status = AdWorkExecutionDayStatus.running;
  request_tracking_status = TrackingSessionStatus.running;
  current_tracking_status = TrackingSessionStatus.running;
  failed_count = 0;
  accepted_count = 4;
  tracking_health_status = TrackingHealthStatus.healthy;
}

still_running : get_location_status_after_successful_sync sent ≡ TrackingSessionStatus.running
unfolding get_location_status_after_successful_sync
still_running = refl

get_foreground_location_decision-get_location_status_after_successful_sync_example :
    get_foreground_location_decision
      (record tracked {
        tracking_status = get_location_status_after_successful_sync (record sent {
          current_tracking_status =
              get_location_status_after_work_action take_break TrackingSessionStatus.running;
        });
      })
      true
    ≡ inactive
get_foreground_location_decision-get_location_status_after_successful_sync_example =
    get_foreground_location_decision-get_location_status_after_successful_sync tracked sent
      take_break true refl refl

get_idempotency_attempt_lem_example :
    get_idempotency_attempt
      (some (get_idempotency_attempt none "0123456789abcdef" "photo-1"))
      "0123456789abcdef"
      "photo-2"
    ≡ get_idempotency_attempt none "0123456789abcdef" "photo-1"
get_idempotency_attempt_lem_example =
    get_idempotency_attempt_lem none "0123456789abcdef" "photo-1" "photo-2"
