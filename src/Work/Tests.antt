-- ===== src/Work/Tests.antt =====
-- The rules on work at concrete states.
use kootha.Prelude.{
  ◌≡◌, ◌≤◌, ◌*◌, refl, true, false, none, some, [], ◌∷◌, codes, arith, any, every, includes,
}
use kootha.Prelude.Text.{trim, trim_start, is_space, to_lower}
use kootha.Statuses.{
  AdWorkAssignmentStatus, ExecutionReleaseStatus, AdWorkExecutionDayStatus, ProofReviewStatus,
  CampaignClosureStatus, DriverStatus, DriverAvailabilityStatus, YesNoNotSure, PackageInterest,
}
use kootha.Work.Execution.{validate_photo_proof_input, can_end_work}
use kootha.Work.Workflow.{
  AdWorkWorkflowState, IsProgress, derive_ad_work_next_action, rank, rank_monotone,
  get_delivery_method_requirements, field_promotion, send_to_driver, review_proof,
}
use kootha.Work.Assignment.{
  AssignmentDriverCandidate, AssignmentAdWorkReadinessInput, build_assignment_readiness,
  driver_can_be_assigned, normalize_text,
}
use kootha.Work.Closure.{
  CampaignClosureReadinessInput, build_campaign_closure_readiness, is_none_left,
}
use kootha.Work.Closure.Exact.{build_campaign_closure_readiness_lem}
use kootha.Work.Proof.{is_clean, validate_photo_proof_input_lem}

-- A field promotion before and after its release and its first finished day.
abbrev planned_promotion : AdWorkWorkflowState
unfolding get_delivery_method_requirements
planned_promotion = record {
  title = some (codes "Market day");
  start_date = some (codes "2026-08-07");
  areas_to_cover = some (codes "Old town");
  delivery_method = some field_promotion;
  requirements = get_delivery_method_requirements field_promotion;
  assignment_ready = true;
  release_status = none;
  day_statuses = "planned" ∷ [];
  pending_proof_count = 3;
  closure_status = none;
}

abbrev worked_promotion : AdWorkWorkflowState
worked_promotion = record planned_promotion {
  release_status = some "released_to_driver";
  day_statuses = "completed" ∷ [];
  pending_proof_count = 2;
}

next_actions : derive_ad_work_next_action planned_promotion ≡ send_to_driver
unfolding derive_ad_work_next_action trim trim_start is_space includes any every planned_promotion
next_actions = refl

later_actions : derive_ad_work_next_action worked_promotion ≡ review_proof
unfolding derive_ad_work_next_action trim trim_start is_space includes any every planned_promotion
later_actions = refl

promotion-IsProgress : IsProgress planned_promotion worked_promotion
unfolding trim trim_start is_space includes any every planned_promotion
promotion-IsProgress = record {
  same_requirements = refl;
  setup = λ h. h;
  assignment = λ h. h;
  release = λ h. refl;
  started = λ h. refl;
  completed = λ h. refl;
  proofs = omega arith;
  closure = λ h. h;
}

rank_monotone_example :
    rank (derive_ad_work_next_action planned_promotion)
    ≤ rank (derive_ad_work_next_action worked_promotion)
rank_monotone_example = rank_monotone planned_promotion worked_promotion promotion-IsProgress

-- A promotion that needs a driver only, and has one.
abbrev driver : AssignmentDriverCandidate
driver = record {
  service_areas = none;
  approval_status = some "approved";
  onboarding_status = DriverStatus.approved;
  availability_status = DriverAvailabilityStatus.available;
}

abbrev promotion : AssignmentAdWorkReadinessInput
promotion = record {
  city = none;
  areas_to_cover = some (codes "Old town");
  start_date = some (codes "2026-08-07");
  package_interest = PackageInterest.basic;
  live_tracking_requested = YesNoNotSure.said_no;
  proof_plan_selected = true;
  driver_required = some true;
  vehicle_required = some false;
  speaker_required = some false;
  areas_required = some true;
}

-- Its assignment is ready.
ready_promotion :
    (build_assignment_readiness to_lower promotion (some driver) none none).is_ready ≡ true
unfolding build_assignment_readiness driver_can_be_assigned normalize_text to_lower trim trim_start
    is_space every
ready_promotion = refl

abbrev closing : CampaignClosureReadinessInput
closing = record {
  assignment_status = AdWorkAssignmentStatus.ready_for_execution;
  release_status = ExecutionReleaseStatus.not_released;
  day_statuses = AdWorkExecutionDayStatus.completed ∷ AdWorkExecutionDayStatus.issue_reported ∷ [];
  proof_needed = true;
  proof_review_statuses = ProofReviewStatus.approved ∷ [];
  customer_update_sharing_statuses = [];
  live_tracking_requested = YesNoNotSure.said_no;
  live_tracking_enabled = false;
  final_summary_reviewed = true;
  customer_updates_reviewed = true;
  proof_not_required_confirmed = false;
  assignment_required = none;
  release_required = some false;
}

build_campaign_closure_readiness_lem_example :
    ((build_campaign_closure_readiness closing).can_close ≡ true)
    × ((build_campaign_closure_readiness closing).status ≡ CampaignClosureStatus.ready_to_close)
    × (is_none_left (build_campaign_closure_readiness closing).blocking_warnings ≡ false)
unfolding every
build_campaign_closure_readiness_lem_example = build_campaign_closure_readiness_lem closing

validate_photo_proof_input_lem_example :
    is_clean (
      validate_photo_proof_input AdWorkExecutionDayStatus.on_break
        (codes "Played twice")
        (codes "Old town")
        (some "image/png")
        (some (5 * 1024 * 1024)))
    ≡ true
unfolding trim trim_start is_space includes can_end_work
validate_photo_proof_input_lem_example =
    validate_photo_proof_input_lem AdWorkExecutionDayStatus.on_break (codes "Played twice")
      (codes "Old town") "image/png" (5 * 1024 * 1024)
