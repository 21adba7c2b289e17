-- ===== src/Work/Closure/Tests.antt =====
-- The final proof summary of closure.ts for a work with two proofs, one of which was rejected.
use kootha.Prelude.{◌≡◌, refl, true, false, none, some, [], ◌∷◌, codes, length}
use kootha.Statuses.{
  ProofReviewStatus, AdWorkExecutionDayStatus, CustomerAcceptanceStatus,
  FinalSummaryLocationProofStatus, FinalSummaryLocationProofActiveStatus,
  FinalSummaryLocationProofSyncStatus,
}
use kootha.Work.Closure.Summary.{
  FinalProofSummaryProof, FinalProofSummaryDay, FinalSummaryLocationProof, FinalProofSummaryInput,
  day_line, proof_line, summary_lines, build_final_proof_summary_text,
}
use kootha.Work.Closure.Shown.{ShowsProof, with_location, build_final_proof_summary_text_lem}

abbrev shown_proof : FinalProofSummaryProof
shown_proof = record {
  status = ProofReviewStatus.approved;
  area_place_name = some (codes " Main Road ");
  note_text = none;
}

abbrev hidden_proof : FinalProofSummaryProof
hidden_proof = record {
  status = ProofReviewStatus.rejected;
  area_place_name = some (codes "Market");
  note_text = some (codes "Blurred");
}

abbrev day : FinalProofSummaryDay
day = record {
  date = codes "2026-01-05";
  status = AdWorkExecutionDayStatus.issue_reported;
  completion_note = some [];
  issue_note = some (codes "Rain");
}

abbrev location : FinalSummaryLocationProof
location = record {
  include = true;
  status = FinalSummaryLocationProofStatus.needs_follow_up;
  required = true;
  active_during_work = FinalSummaryLocationProofActiveStatus.not_confirmed;
  first_location_received = none;
  last_location_received = none;
  offline_sync = FinalSummaryLocationProofSyncStatus.pending;
  team_review_note = some (codes "Seen");
}

abbrev input : FinalProofSummaryInput
input = record {
  customer_name = codes "Ravi";
  business_name = none;
  mobile_number = none;
  city_town = some (codes "Guntur");
  advertisement_details = none;
  ad_work_reference = codes "AW-1";
  package_label = codes "Basic";
  planned_start_date = none;
  planned_end_date = none;
  assigned_driver = none;
  assigned_vehicle = none;
  mic_system_status = none;
  days = day ∷ [];
  proofs = hidden_proof ∷ shown_proof ∷ [];
  customer_updates_shared = false;
  location_proof = some location;
  closure_status_label = codes "Closed";
  customer_accepted = CustomerAcceptanceStatus.not_confirmed;
  closure_note = none;
}

day_text : day_line day ≡ codes "2026-01-05: issue reported Issue: Rain"
unfolding day_line
day_text = refl

proof_text : proof_line shown_proof ≡ codes "Main Road - Not set"
unfolding proof_line
proof_text = refl

-- Thirteen lines before the days, a day, a heading and a proof, the updates, nine lines of the location,
-- and four at the end.
line_count : length (summary_lines input) ≡ 30
unfolding summary_lines
line_count = refl

build_final_proof_summary_text_lem_example :
    ShowsProof input (shown_proof ∷ []) hidden_proof [] false
    × (build_final_proof_summary_text
          (with_location input (some (record location { include = false })))
        ≡ build_final_proof_summary_text (with_location input none))
build_final_proof_summary_text_lem_example =
    build_final_proof_summary_text_lem input (shown_proof ∷ []) hidden_proof [] location
