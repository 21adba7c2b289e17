-- ===== src/Work/Execution.antt =====
-- packages/shared/src/execution.ts: the release of work to a driver, what a driver may do on a day, and
-- the checks on notes and photos. Errors are the source's messages.
use kootha.Prelude.{
  ℕ, ◌*◌, Bool, true, false, not, ◌&&◌, Option, none, some, List, [], ◌∷◌, ◌++◌, String, every, ltb,
  includes,
}
use kootha.Prelude.Json.{Text}
use kootha.Prelude.Text.{trim}
use kootha.Statuses.{
  AdWorkAssignmentStatus, ExecutionReleaseStatus, AdWorkExecutionDayStatus, PackageInterest,
}

pub data DriverExecutionAction : Type 0 where
  start take_break resume finish issue add_proof_note : DriverExecutionAction

abbrev pub max_proof_photo_bytes : ℕ
max_proof_photo_bytes = 5 * 1024 * 1024

abbrev pub allowed_proof_photo_mime_types : List String
allowed_proof_photo_mime_types = "image/jpeg" ∷ "image/png" ∷ "image/webp" ∷ []

pub record ExecutionReleaseReadinessInput : Type 0 where
  pub assignment_status : AdWorkAssignmentStatus
  pub release_status : Option ExecutionReleaseStatus
  pub start_date : Option Text
  pub areas_to_cover : Option Text
  pub package_interest : PackageInterest
  pub driver_assigned : Bool
  pub vehicle_assigned : Bool

pub record ExecutionReadinessCheck : Type 0 where
  pub label : String
  pub passed : Bool

pub record ExecutionReleaseReadiness : Type 0 where
  pub is_ready : Bool
  pub checks : List ExecutionReadinessCheck

-- `Boolean(text)` and `Boolean(text.trim())` for a text that may be missing.
abbrev pub is_given : Option Text → Bool
is_given none = false
is_given (some []) = false
is_given (some (c ∷ cs)) = true

abbrev pub is_filled : Text → Bool
is_filled text = is_given (some (trim text))

abbrev pub has_text : Option Text → Bool
has_text none = false
has_text (some text) = is_filled text

abbrev pub is_ready_for_execution : AdWorkAssignmentStatus → Bool
is_ready_for_execution status = elim status [
  | AdWorkAssignmentStatus.ready_for_execution ↦ true
  | _ ↦ false
]

abbrev pub is_package_selected : PackageInterest → Bool
is_package_selected interest = elim interest [ PackageInterest.not_sure ↦ false | _ ↦ true ]

unfoldable pub build_execution_release_readiness :
    ExecutionReleaseReadinessInput → ExecutionReleaseReadiness
build_execution_release_readiness input =
    let checks =
      record {
        label = "Ready for Execution";
        passed = is_ready_for_execution input.assignment_status;
      }
      ∷ record { label = "Approved driver assigned"; passed = input.driver_assigned }
      ∷ record { label = "Approved vehicle assigned"; passed = input.vehicle_assigned }
      ∷ record { label = "Planned dates"; passed = has_text input.start_date }
      ∷ record { label = "Areas to cover"; passed = has_text input.areas_to_cover }
      ∷ record { label = "Package selected"; passed = is_package_selected input.package_interest }
      ∷ [] in
    record { is_ready = every (λ check. check.passed) checks; checks = checks }

abbrev pub is_access_revoked : Option ExecutionReleaseStatus → Bool
is_access_revoked (some ExecutionReleaseStatus.access_revoked) = true
is_access_revoked _ = false

unfoldable pub can_release_ad_work : ExecutionReleaseReadinessInput → Bool
can_release_ad_work input =
    (build_execution_release_readiness input).is_ready
    && not (is_access_revoked input.release_status)

unfoldable pub can_start_work : AdWorkExecutionDayStatus → Bool
can_start_work status = elim status [
  | AdWorkExecutionDayStatus.planned ↦ true
  | AdWorkExecutionDayStatus.ready ↦ true
  | _ ↦ false
]

unfoldable pub can_take_break : AdWorkExecutionDayStatus → Bool
can_take_break status = elim status [ AdWorkExecutionDayStatus.running ↦ true | _ ↦ false ]

unfoldable pub can_resume_work : AdWorkExecutionDayStatus → Bool
can_resume_work status = elim status [ AdWorkExecutionDayStatus.on_break ↦ true | _ ↦ false ]

unfoldable pub can_end_work : AdWorkExecutionDayStatus → Bool
can_end_work status = elim status [
  | AdWorkExecutionDayStatus.running ↦ true
  | AdWorkExecutionDayStatus.on_break ↦ true
  | _ ↦ false
]

unfoldable pub can_add_proof_note : AdWorkExecutionDayStatus → Bool
can_add_proof_note status = elim status [ AdWorkExecutionDayStatus.cancelled ↦ false | _ ↦ true ]

unfoldable pub can_upload_photo_proof : AdWorkExecutionDayStatus → Bool
can_upload_photo_proof status = elim status [
  | AdWorkExecutionDayStatus.running ↦ true
  | AdWorkExecutionDayStatus.on_break ↦ true
  | _ ↦ false
]

-- `if (wrong) errors.push(message)`.
abbrev pub error_if : Bool → String → List String
error_if true message = message ∷ []
error_if false message = []

-- The size is a count of bytes.
unfoldable pub validate_proof_photo_file : Option String → Option ℕ → List String
validate_proof_photo_file mime_type file_size =
    error_if
      (not (includes (elim mime_type [ none ↦ "" | some m ↦ m ]) allowed_proof_photo_mime_types))
      "Choose a JPG, PNG, or WebP photo."
    ++ error_if (elim file_size [ none ↦ false | some n ↦ ltb max_proof_photo_bytes n ])
        "Photo must be 5 MB or smaller."

unfoldable pub validate_driver_execution_action :
    AdWorkExecutionDayStatus → DriverExecutionAction → Text → List String
validate_driver_execution_action status start note =
    error_if (not (can_start_work status)) "Work can start only when it is Planned or Ready."
validate_driver_execution_action status take_break note =
    error_if (not (can_take_break status)) "Break can be taken only when work is Running."
validate_driver_execution_action status resume note =
    error_if (not (can_resume_work status)) "Work can resume only when it is On Break."
validate_driver_execution_action status finish note =
    error_if (not (can_end_work status)) "Work can end only when it is Running or On Break."
    ++ error_if (not (is_filled note)) "Completion note is required."
validate_driver_execution_action status issue note =
    error_if (not (is_filled note)) "Issue note is required."
validate_driver_execution_action status add_proof_note note =
    error_if (not (is_filled note)) "Proof note is required."

unfoldable pub validate_photo_proof_input :
    AdWorkExecutionDayStatus → Text → Text → Option String → Option ℕ → List String
validate_photo_proof_input status note area_place_name mime_type file_size =
    error_if (not (can_upload_photo_proof status))
      "Upload Photo Proof is allowed only when work is Running or On Break."
    ++ (error_if (not (is_filled area_place_name)) "Area or Place Name is required."
        ++ (error_if (not (is_filled note)) "What happened? is required."
            ++ validate_proof_photo_file mime_type file_size))
