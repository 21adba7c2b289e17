-- ===== src/Work/Closure/Exact.antt =====
-- When closure.ts lets a campaign be closed, and when it does so without a blocking warning.
use kootha.Prelude.{
  ◌≡◌, refl, Bool, true, false, not, ◌&&◌, ◌||◌, List, [], ◌∷◌, ◌++◌, String, arith, if◌then◌else◌,
  any, every,
}
use kootha.Statuses.{
  AdWorkExecutionDayStatus, ProofReviewStatus, CustomerUpdateSharingStatus, CampaignClosureStatus,
}
use kootha.Work.Execution.{error_if, is_ready_for_execution}
use kootha.Work.Tracking.{is_released_to_driver}
use kootha.Work.Assignment.{default}
use kootha.Work.Closure.{
  CampaignClosureReadinessInput, build_campaign_closure_readiness, hard_stops_of,
  blocking_warnings_of, is_none_left, is_completed_day, is_issue_day, is_unreviewed,
  is_rejected_proof, is_pending_sharing,
}

abbrev pub is_approved_proof : ProofReviewStatus → Bool
is_approved_proof status = elim status [ ProofReviewStatus.approved ↦ true | _ ↦ false ]

abbrev pub is_shared : CustomerUpdateSharingStatus → Bool
is_shared status = elim status [ CustomerUpdateSharingStatus.shared_manually ↦ true | _ ↦ false ]

-- The four confirmations without which a campaign is not closed.
abbrev pub is_confirmed : CampaignClosureReadinessInput → Bool
is_confirmed input =
    (not (default true input.assignment_required) || is_ready_for_execution input.assignment_status)
    && ((not (default true input.release_required) || is_released_to_driver input.release_status)
        && (input.final_summary_reviewed && input.customer_updates_reviewed))

-- At least one, and all of them.
abbrev pub all_of_some {ℓ} : {A : Type ℓ} → (A → Bool) → List A → Bool
all_of_some test xs = not (is_none_left xs) && every test xs

-- The work of a campaign is done, proved and shared.
abbrev pub is_settled : CampaignClosureReadinessInput → Bool
is_settled input =
    all_of_some is_completed_day input.day_statuses
    && ((not input.proof_needed
          || (input.proof_not_required_confirmed
              || all_of_some is_approved_proof input.proof_review_statuses))
        && every is_shared input.customer_update_sharing_statuses)

none_left-error_if :
    (b : Bool) (message : String) (rest : List String)
    → is_none_left (error_if b message ++ rest) ≡ (not b && is_none_left rest)
none_left-error_if true message rest = refl
none_left-error_if false message rest = refl

none_left-error : (b : Bool) (message : String) → is_none_left (error_if b message) ≡ not b
none_left-error true message = refl
none_left-error false message = refl

days_done :
    (days : List AdWorkExecutionDayStatus)
    → (not (any (λ status. not (is_completed_day status)) days) && not (any is_issue_day days))
      ≡ every is_completed_day days
unfolding any every
days_done [] = refl
days_done (day ∷ days) = ground (arith, days_done days)

proofs_approved :
    (proofs : List ProofReviewStatus)
    → (not (any is_unreviewed proofs) && not (any is_rejected_proof proofs))
      ≡ every is_approved_proof proofs
unfolding any every
proofs_approved [] = refl
proofs_approved (proof ∷ proofs) = ground (arith, proofs_approved proofs)

updates_shared :
    (updates : List CustomerUpdateSharingStatus)
    → not (any is_pending_sharing updates) ≡ every is_shared updates
unfolding any every
updates_shared [] = refl
updates_shared (u ∷ us) = ground (arith, updates_shared us)

hard_stops-none :
    (input : CampaignClosureReadinessInput)
    → is_none_left (hard_stops_of input) ≡ is_confirmed input
unfolding hard_stops_of
hard_stops-none input = ground arith

blocking-none :
    (input : CampaignClosureReadinessInput)
    → is_none_left (blocking_warnings_of input) ≡ is_settled input
unfolding blocking_warnings_of
blocking-none input = ground (
  arith,
  days_done input.day_statuses,
  proofs_approved input.proof_review_statuses,
  updates_shared input.customer_update_sharing_statuses,
)

same_status :
    (b c : Bool)
    → b ≡ c
    → (if b
        then CampaignClosureStatus.ready_to_close
        else if b
        then CampaignClosureStatus.ready_for_review
        else CampaignClosureStatus.not_ready)
      ≡ (if c then CampaignClosureStatus.ready_to_close else CampaignClosureStatus.not_ready)
same_status b c e = ground (arith, e)

-- A campaign can be closed exactly if its required assignment and release are there and both reviews
-- are done; its status is `ready_to_close` then and `not_ready` otherwise, never `ready_for_review`; and
-- no blocking warning is left exactly if there are days and all are completed, the proof that is needed
-- and not waived is there and all of it approved, and every customer update is shared.
pub build_campaign_closure_readiness_lem :
    (input : CampaignClosureReadinessInput)
    → ((build_campaign_closure_readiness input).can_close ≡ is_confirmed input)
      × ((build_campaign_closure_readiness input).status ≡ (
          if is_confirmed input
          then CampaignClosureStatus.ready_to_close
          else CampaignClosureStatus.not_ready))
      × (is_none_left (build_campaign_closure_readiness input).blocking_warnings ≡ is_settled input)
unfolding build_campaign_closure_readiness
build_campaign_closure_readiness_lem input =
    (hard_stops-none input, same_status _ _ (hard_stops-none input), blocking-none input)
