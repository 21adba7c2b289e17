-- ===== src/Statuses.antt =====
-- The status vocabularies of packages/shared/src/statuses.ts, and the two of enquiry.ts, that the
-- modelled code reads: one data type for each array of literals, with the literals as constructors, and
-- the labels of three of them.
use kootha.Prelude.{String}

-- `yesNoNotSureOptions`.
pub data YesNoNotSure : Type 0 where
  said_yes said_no not_sure : YesNoNotSure

pub data PackageInterest : Type 0 where
  basic standard premium not_sure : PackageInterest

pub data DriverStatus : Type 0 where
  pending_review approved inactive blocked : DriverStatus

pub data DriverAvailabilityStatus : Type 0 where
  available not_available busy unknown : DriverAvailabilityStatus

pub data VehicleStatus : Type 0 where
  pending_review approved inactive blocked : VehicleStatus

pub data VehicleGpsDeviceStatus : Type 0 where
  none planned installed not_working : VehicleGpsDeviceStatus

pub data AdWorkAssignmentStatus : Type 0 where
  not_assigned assigned needs_review ready_for_execution cancelled : AdWorkAssignmentStatus

pub data ExecutionReleaseStatus : Type 0 where
  not_released released_to_driver access_revoked : ExecutionReleaseStatus

pub data AdWorkExecutionDayStatus : Type 0 where
  planned ready running on_break completed issue_reported cancelled : AdWorkExecutionDayStatus

pub data ProofReviewStatus : Type 0 where
  waiting_review approved rejected needs_more_info : ProofReviewStatus

pub data CustomerUpdateSharingStatus : Type 0 where
  pending_sharing shared_manually : CustomerUpdateSharingStatus

pub data CampaignClosureStatus : Type 0 where
  not_ready ready_for_review ready_to_close closed closed_with_issues cancelled :
      CampaignClosureStatus

pub data TrackingSessionStatus : Type 0 where
  not_started running paused stopped completed failed permission_missing : TrackingSessionStatus

pub data TrackingStopReason : Type 0 where
  work_ended break_started admin_stopped permission_removed app_error other : TrackingStopReason

pub data TrackingHealthStatus : Type 0 where
  healthy no_recent_update permission_missing offline_saving sync_pending sync_failed stopped :
      TrackingHealthStatus

pub data CustomerAcceptanceStatus : Type 0 where
  yes no not_confirmed : CustomerAcceptanceStatus

pub data FinalSummaryLocationProofStatus : Type 0 where
  reviewed_by_team needs_follow_up not_required not_available not_reviewed :
      FinalSummaryLocationProofStatus

pub data FinalSummaryLocationProofActiveStatus : Type 0 where
  yes no not_confirmed : FinalSummaryLocationProofActiveStatus

pub data FinalSummaryLocationProofSyncStatus : Type 0 where
  synced pending not_applicable not_available : FinalSummaryLocationProofSyncStatus

-- The literals of two vocabularies that are printed.
unfoldable pub day_status_literal : AdWorkExecutionDayStatus → String
day_status_literal AdWorkExecutionDayStatus.planned = "planned"
day_status_literal AdWorkExecutionDayStatus.ready = "ready"
day_status_literal AdWorkExecutionDayStatus.running = "running"
day_status_literal AdWorkExecutionDayStatus.on_break = "on_break"
day_status_literal AdWorkExecutionDayStatus.completed = "completed"
day_status_literal AdWorkExecutionDayStatus.issue_reported = "issue_reported"
day_status_literal AdWorkExecutionDayStatus.cancelled = "cancelled"

unfoldable pub acceptance_literal : CustomerAcceptanceStatus → String
acceptance_literal CustomerAcceptanceStatus.yes = "yes"
acceptance_literal CustomerAcceptanceStatus.no = "no"
acceptance_literal CustomerAcceptanceStatus.not_confirmed = "not_confirmed"

unfoldable pub get_final_summary_location_proof_status_label :
    FinalSummaryLocationProofStatus → String
get_final_summary_location_proof_status_label FinalSummaryLocationProofStatus.reviewed_by_team =
    "Reviewed by Team"
get_final_summary_location_proof_status_label FinalSummaryLocationProofStatus.needs_follow_up =
    "Needs Follow-up"
get_final_summary_location_proof_status_label FinalSummaryLocationProofStatus.not_required =
    "Not Required"
get_final_summary_location_proof_status_label FinalSummaryLocationProofStatus.not_available =
    "Not Available"
get_final_summary_location_proof_status_label FinalSummaryLocationProofStatus.not_reviewed =
    "Not Reviewed"

unfoldable pub get_final_summary_location_proof_active_label :
    FinalSummaryLocationProofActiveStatus → String
get_final_summary_location_proof_active_label FinalSummaryLocationProofActiveStatus.yes = "Yes"
get_final_summary_location_proof_active_label FinalSummaryLocationProofActiveStatus.no = "No"
get_final_summary_location_proof_active_label FinalSummaryLocationProofActiveStatus.not_confirmed =
    "Not Confirmed"

unfoldable pub get_final_summary_location_proof_sync_label :
    FinalSummaryLocationProofSyncStatus → String
get_final_summary_location_proof_sync_label FinalSummaryLocationProofSyncStatus.synced = "Synced"
get_final_summary_location_proof_sync_label FinalSummaryLocationProofSyncStatus.pending = "Pending"
get_final_summary_location_proof_sync_label FinalSummaryLocationProofSyncStatus.not_applicable =
    "Not Applicable"
get_final_summary_location_proof_sync_label FinalSummaryLocationProofSyncStatus.not_available =
    "Not Available"
