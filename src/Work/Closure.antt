-- ===== src/Work/Closure.antt =====
-- packages/shared/src/closure.ts: whether a campaign may be closed, and with which warnings.
pub mod Exact
pub mod Summary
pub mod Shown
mod Tests
use kootha.Prelude.{
  ℕ, ◌≡◌, refl, Bool, true, false, not, ◌&&◌, ◌||◌, Option, none, some, List, [], ◌∷◌, ◌++◌, String,
  arith, if◌then◌else◌, any, every,
}
use kootha.Statuses.{
  AdWorkAssignmentStatus, ExecutionReleaseStatus, AdWorkExecutionDayStatus, ProofReviewStatus,
  CustomerUpdateSharingStatus, YesNoNotSure, CampaignClosureStatus,
}
use kootha.Work.Execution.{error_if, is_ready_for_execution}
use kootha.Work.Tracking.{is_released_to_driver}
use kootha.Work.Assignment.{default, said_yes_to}

pub record CampaignClosureReadinessInput : Type 0 where
  pub assignment_status : AdWorkAssignmentStatus
  pub release_status : ExecutionReleaseStatus
  pub day_statuses : List AdWorkExecutionDayStatus
  pub proof_needed : Bool
  pub proof_review_statuses : List ProofReviewStatus
  pub customer_update_sharing_statuses : List CustomerUpdateSharingStatus
  pub live_tracking_requested : YesNoNotSure
  pub live_tracking_enabled : Bool
  pub final_summary_reviewed : Bool
  pub customer_updates_reviewed : Bool
  pub proof_not_required_confirmed : Bool
  pub assignment_required : Option Bool
  pub release_required : Option Bool

pub record CampaignClosureReadiness : Type 0 where
  pub status : CampaignClosureStatus
  pub can_close : Bool
  pub warnings : List String
  pub blocking_warnings : List String
  pub hard_stops : List String

abbrev pub is_none_left {ℓ} : {A : Type ℓ} → List A → Bool
is_none_left [] = true
is_none_left (a ∷ rest) = false

abbrev pub is_completed_day : AdWorkExecutionDayStatus → Bool
is_completed_day status = elim status [ AdWorkExecutionDayStatus.completed ↦ true | _ ↦ false ]

abbrev pub is_issue_day : AdWorkExecutionDayStatus → Bool
is_issue_day status = elim status [ AdWorkExecutionDayStatus.issue_reported ↦ true | _ ↦ false ]

abbrev pub is_unreviewed : ProofReviewStatus → Bool
is_unreviewed status = elim status [
  | ProofReviewStatus.waiting_review ↦ true
  | ProofReviewStatus.needs_more_info ↦ true
  | _ ↦ false
]

abbrev pub is_rejected_proof : ProofReviewStatus → Bool
is_rejected_proof status = elim status [ ProofReviewStatus.rejected ↦ true | _ ↦ false ]

abbrev pub is_pending_sharing : CustomerUpdateSharingStatus → Bool
is_pending_sharing status = elim status [
  | CustomerUpdateSharingStatus.pending_sharing ↦ true
  | _ ↦ false
]

unfoldable pub hard_stops_of : CampaignClosureReadinessInput → List String
hard_stops_of input =
    error_if
      (default true input.assignment_required
        && not (is_ready_for_execution input.assignment_status))
      "Ad Work is not assigned."
    ++ (error_if
          (default true input.release_required && not (is_released_to_driver input.release_status))
          "Ad Work was not released to driver."
        ++ (error_if (not input.final_summary_reviewed) "Final Proof Summary is not reviewed."
            ++ error_if (not input.customer_updates_reviewed)
                "Customer update messages are not reviewed."))

-- The warnings that go to both lists, in their order.
unfoldable pub blocking_warnings_of : CampaignClosureReadinessInput → List String
blocking_warnings_of input =
    let proof_checked = input.proof_needed && not input.proof_not_required_confirmed in
    error_if
      (is_none_left input.day_statuses
        || any (λ status. not (is_completed_day status)) input.day_statuses)
      "Some planned days are not completed."
    ++ (error_if (any is_issue_day input.day_statuses) "Issue Reported and not resolved."
        ++ (error_if (proof_checked && is_none_left input.proof_review_statuses) "Missing Proof."
            ++ (error_if (proof_checked && any is_unreviewed input.proof_review_statuses)
                  "Proof is waiting for review."
                ++ (error_if (proof_checked && any is_rejected_proof input.proof_review_statuses)
                      "Some proof was rejected."
                    ++ error_if (any is_pending_sharing input.customer_update_sharing_statuses)
                        "Customer updates are not marked shared."))))

unfoldable pub build_campaign_closure_readiness :
    CampaignClosureReadinessInput → CampaignClosureReadiness
build_campaign_closure_readiness input =
    let hard_stops = hard_stops_of input in
    let blocking_warnings = blocking_warnings_of input in
    let can_close = is_none_left hard_stops in
    record {
      status =
          if can_close
          then CampaignClosureStatus.ready_to_close
          else if is_none_left hard_stops
          then CampaignClosureStatus.ready_for_review
          else CampaignClosureStatus.not_ready;
      can_close = can_close;
      warnings =
          blocking_warnings
          ++ (error_if
                (said_yes_to input.live_tracking_requested && not input.live_tracking_enabled)
                "Premium live tracking was requested but not enabled in this MVP."
              ++ error_if input.proof_needed "GPS proof is not available in this version.");
      blocking_warnings = blocking_warnings;
      hard_stops = hard_stops;
    }
