-- ===== src/Work/Closure/Summary.antt =====
-- packages/shared/src/closure.ts: the text of the final proof summary.
use kootha.Prelude.{
  Bool, Option, none, some, List, [], ◌∷◌, ◌++◌, map, filter, codes, if◌then◌else◌, ◌==◌,
}
use kootha.Prelude.Json.{Text}
use kootha.Prelude.Text.{trim}
use kootha.Prelude.Print.{join}
use kootha.Statuses.{
  ProofReviewStatus, AdWorkExecutionDayStatus, CustomerAcceptanceStatus,
  FinalSummaryLocationProofStatus, FinalSummaryLocationProofActiveStatus,
  FinalSummaryLocationProofSyncStatus, day_status_literal, acceptance_literal,
  get_final_summary_location_proof_status_label, get_final_summary_location_proof_active_label,
  get_final_summary_location_proof_sync_label,
}
use kootha.Work.Closure.Exact.{is_approved_proof}

pub record FinalProofSummaryProof : Type 0 where
  pub status : ProofReviewStatus
  pub area_place_name : Option Text
  pub note_text : Option Text

pub record FinalProofSummaryDay : Type 0 where
  pub date : Text
  pub status : AdWorkExecutionDayStatus
  pub completion_note : Option Text
  pub issue_note : Option Text

pub record FinalSummaryLocationProof : Type 0 where
  pub include : Bool
  pub status : FinalSummaryLocationProofStatus
  pub required : Bool
  pub active_during_work : FinalSummaryLocationProofActiveStatus
  pub first_location_received : Option Text
  pub last_location_received : Option Text
  pub offline_sync : FinalSummaryLocationProofSyncStatus
  pub team_review_note : Option Text

pub record FinalProofSummaryInput : Type 0 where
  pub customer_name : Text
  pub business_name : Option Text
  pub mobile_number : Option Text
  pub city_town : Option Text
  pub advertisement_details : Option Text
  pub ad_work_reference : Text
  pub package_label : Text
  pub planned_start_date : Option Text
  pub planned_end_date : Option Text
  pub assigned_driver : Option Text
  pub assigned_vehicle : Option Text
  pub mic_system_status : Option Text
  pub days : List FinalProofSummaryDay
  pub proofs : List FinalProofSummaryProof
  pub customer_updates_shared : Bool
  pub location_proof : Option FinalSummaryLocationProof
  pub closure_status_label : Text
  pub customer_accepted : CustomerAcceptanceStatus
  pub closure_note : Option Text

unfoldable pub get_approved_final_proofs : List FinalProofSummaryProof → List FinalProofSummaryProof
unfolding filter
get_approved_final_proofs = filter λ proof. is_approved_proof proof.status

abbrev pub or_text : Text → Text → Text
or_text [] otherwise = otherwise
or_text (c ∷ cs) otherwise = c ∷ cs

abbrev pub text_or_empty : Option Text → Text
text_or_empty none = []
text_or_empty (some text) = text

unfoldable pub value_or_not_set : Option Text → Text
unfolding trim
value_or_not_set value = or_text (trim (text_or_empty value)) (codes "Not set")

unfoldable pub value_or_not_available : Option Text → Text
unfolding trim
value_or_not_available value = or_text (trim (text_or_empty value)) (codes "Not Available")

abbrev pub yes_or_no : Bool → Text
yes_or_no b = if b then codes "Yes" else codes "No"

-- `text.replace(/_/g, " ")`.
unfoldable pub without_underscores : Text → Text
without_underscores = map λ c. if c == b'_' then b' ' else c

-- `note ? prefix + note : ""`.
abbrev pub prefixed : Text → Option Text → Text
prefixed before none = []
prefixed before (some []) = []
prefixed before (some (c ∷ cs)) = before ++ c ∷ cs

unfoldable pub day_line : FinalProofSummaryDay → Text
unfolding without_underscores day_status_literal
day_line day =
    day.date
    ++ (codes ": "
        ++ (without_underscores (codes (day_status_literal day.status))
            ++ (prefixed (codes " - ") day.completion_note
                ++ prefixed (codes " Issue: ") day.issue_note)))

unfoldable pub proof_line : FinalProofSummaryProof → Text
unfolding value_or_not_set
proof_line proof =
    value_or_not_set proof.area_place_name ++ (codes " - " ++ value_or_not_set proof.note_text)

unfoldable pub build_final_summary_location_proof_lines :
    Option FinalSummaryLocationProof → List Text
unfolding value_or_not_available get_final_summary_location_proof_status_label
    get_final_summary_location_proof_active_label get_final_summary_location_proof_sync_label
build_final_summary_location_proof_lines none = []
build_final_summary_location_proof_lines (some proof) =
    if proof.include
    then codes "Phone Location Proof"
      ∷ (codes "Phone Location Proof Status: "
          ++ codes (get_final_summary_location_proof_status_label proof.status))
      ∷ (codes "Location Proof Required: " ++ yes_or_no proof.required)
      ∷ (codes "Location Proof Active During Work: "
          ++ codes (get_final_summary_location_proof_active_label proof.active_during_work))
      ∷ (codes "First Location Received: " ++ value_or_not_available proof.first_location_received)
      ∷ (codes "Last Location Received: " ++ value_or_not_available proof.last_location_received)
      ∷ (codes "Offline Location Sync: "
          ++ codes (get_final_summary_location_proof_sync_label proof.offline_sync))
      ∷ (codes "Team Review Note: " ++ value_or_not_available proof.team_review_note)
      ∷ codes
          "Phone Location Proof is supporting evidence only. It does not certify route, map, distance, or full area coverage."
      ∷ []
    else []

-- The lines of a list, or one line if it is empty.
abbrev pub or_line : List Text → Text → List Text
or_line [] otherwise = otherwise ∷ []
or_line (line ∷ lines) otherwise = line ∷ lines

unfoldable pub first_lines : FinalProofSummaryInput → List Text
unfolding value_or_not_set
first_lines input =
    codes "Final Proof Summary"
    ∷ (codes "Customer: " ++ value_or_not_set (some input.customer_name))
    ∷ (codes "Business/shop: " ++ value_or_not_set input.business_name)
    ∷ (codes "Mobile: " ++ value_or_not_set input.mobile_number)
    ∷ (codes "City/town: " ++ value_or_not_set input.city_town)
    ∷ (codes "Advertisement: " ++ value_or_not_set input.advertisement_details)
    ∷ (codes "Ad Work: " ++ input.ad_work_reference)
    ∷ (codes "Package: " ++ input.package_label)
    ∷ (codes "Planned dates: "
        ++ (value_or_not_set input.planned_start_date
            ++ (codes " to " ++ value_or_not_set input.planned_end_date)))
    ∷ (codes "Assigned driver: " ++ value_or_not_set input.assigned_driver)
    ∷ (codes "Assigned vehicle: " ++ value_or_not_set input.assigned_vehicle)
    ∷ (codes "Mic System: " ++ value_or_not_set input.mic_system_status)
    ∷ codes "Day-wise summary:"
    ∷ []

unfoldable pub last_lines : FinalProofSummaryInput → List Text
unfolding value_or_not_set without_underscores acceptance_literal
last_lines input =
    (codes "Closure status: " ++ input.closure_status_label)
    ∷ (codes "Customer Accepted: "
        ++ without_underscores (codes (acceptance_literal input.customer_accepted)))
    ∷ (codes "Closure Note: " ++ value_or_not_set input.closure_note)
    ∷ codes "GPS, route, map, and live tracking proof are not included in this version."
    ∷ []

-- The lines that the text joins.
unfoldable pub summary_lines : FinalProofSummaryInput → List Text
unfolding get_approved_final_proofs day_line proof_line first_lines last_lines
    build_final_summary_location_proof_lines
summary_lines input =
    first_lines input
    ++ (or_line (map day_line input.days) (codes "No completed day rows yet.")
        ++ (codes "Approved proof:"
            ∷ (or_line (map proof_line (get_approved_final_proofs input.proofs))
                  (codes "No customer-approved photo proof selected.")
                ++ ((codes "Customer Update Shared: " ++ yes_or_no input.customer_updates_shared)
                    ∷ (build_final_summary_location_proof_lines input.location_proof
                        ++ last_lines input)))))

unfoldable pub build_final_proof_summary_text : FinalProofSummaryInput → Text
unfolding summary_lines join
build_final_proof_summary_text input = join (b'\n' ∷ []) (summary_lines input)
