-- ===== src/Work/Tracking.antt =====
-- packages/shared/src/tracking.ts: when the phone's location proof may start, why it stops, and how
-- good a fix is.
use kootha.Prelude.{ℕ, Bool, true, false, not, ◌&&◌, Option, none, some, leb, if◌then◌else◌}
use kootha.Prelude.Number.{pos, negsuc, Number, integer, fraction, infinity, nan}
use kootha.Statuses.{
  AdWorkAssignmentStatus, ExecutionReleaseStatus, AdWorkExecutionDayStatus, CampaignClosureStatus,
  TrackingStopReason,
}
use kootha.Work.Execution.{is_ready_for_execution}

pub record MobileLocationProofStartInput : Type 0 where
  pub mobile_location_proof_required : Bool
  pub assignment_status : AdWorkAssignmentStatus
  pub release_status : ExecutionReleaseStatus
  pub day_status : AdWorkExecutionDayStatus
  pub closure_status : Option CampaignClosureStatus

abbrev pub is_released_to_driver : ExecutionReleaseStatus → Bool
is_released_to_driver status = elim status [
  | ExecutionReleaseStatus.released_to_driver ↦ true
  | _ ↦ false
]

abbrev pub is_running : AdWorkExecutionDayStatus → Bool
is_running status = elim status [ AdWorkExecutionDayStatus.running ↦ true | _ ↦ false ]

abbrev pub is_over : Option CampaignClosureStatus → Bool
is_over none = false
is_over (some status) = elim status [
  | CampaignClosureStatus.closed ↦ true
  | CampaignClosureStatus.closed_with_issues ↦ true
  | CampaignClosureStatus.cancelled ↦ true
  | _ ↦ false
]

unfoldable pub can_start_mobile_location_proof : MobileLocationProofStartInput → Bool
can_start_mobile_location_proof input =
    input.mobile_location_proof_required
    && (is_ready_for_execution input.assignment_status
        && (is_released_to_driver input.release_status
            && (is_running input.day_status && not (is_over input.closure_status))))

pub data WorkAction : Type 0 where
  take_break finish revoke admin_stop permission_removed app_error other : WorkAction

unfoldable pub get_tracking_stop_reason_for_work_action : WorkAction → TrackingStopReason
get_tracking_stop_reason_for_work_action action = elim action [
  | take_break ↦ TrackingStopReason.break_started
  | finish ↦ TrackingStopReason.work_ended
  | revoke ↦ TrackingStopReason.admin_stopped
  | admin_stop ↦ TrackingStopReason.admin_stopped
  | permission_removed ↦ TrackingStopReason.permission_removed
  | app_error ↦ TrackingStopReason.app_error
  | other ↦ TrackingStopReason.other
]

pub data LocationQuality : Type 0 where
  good weak unknown : LocationQuality

-- `at_most_50` says whether a fraction, by its number, is at most 50.
unfoldable pub get_location_quality_from_accuracy : (ℕ → Bool) → Option Number → LocationQuality
get_location_quality_from_accuracy at_most_50 none = unknown
get_location_quality_from_accuracy at_most_50 (some infinity) = unknown
get_location_quality_from_accuracy at_most_50 (some nan) = unknown
get_location_quality_from_accuracy at_most_50 (some (integer (pos n))) =
    if leb n 50 then good else weak
get_location_quality_from_accuracy at_most_50 (some (integer (negsuc n))) = good
get_location_quality_from_accuracy at_most_50 (some (fraction k)) =
    if at_most_50 k then good else weak
