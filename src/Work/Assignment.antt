-- ===== src/Work/Assignment.antt =====
-- packages/shared/src/assignment.ts: which drivers and vehicles may be assigned, and whether an
-- assignment is ready. `lower` stands for `toLowerCase`, on which nothing is assumed.
use kootha.Prelude.{
  Bool, true, false, not, ◌&&◌, ◌||◌, Option, none, some, List, [], ◌∷◌, ◌++◌, String,
  if◌then◌else◌, every, any, str_eq,
}
use kootha.Prelude.Json.{Text}
use kootha.Prelude.Text.{trim, text_eq}
use kootha.Statuses.{
  AdWorkAssignmentStatus, DriverStatus, DriverAvailabilityStatus, VehicleStatus,
  VehicleGpsDeviceStatus, YesNoNotSure, PackageInterest,
}
use kootha.Work.Execution.{is_given, is_package_selected, error_if}

pub record AssignmentDriverCandidate : Type 0 where
  pub service_areas : Option (List Text)
  pub approval_status : Option String
  pub onboarding_status : DriverStatus
  pub availability_status : DriverAvailabilityStatus

pub record AssignmentVehicleCandidate : Type 0 where
  pub city : Option Text
  pub active : Option Bool
  pub onboarding_status : VehicleStatus
  pub mic_system_available : Bool
  pub gps_device_available : YesNoNotSure
  pub gps_device_status : VehicleGpsDeviceStatus

pub record AssignmentAdWorkReadinessInput : Type 0 where
  pub city : Option Text
  pub areas_to_cover : Option Text
  pub start_date : Option Text
  pub package_interest : PackageInterest
  pub live_tracking_requested : YesNoNotSure
  pub proof_plan_selected : Bool
  pub driver_required : Option Bool
  pub vehicle_required : Option Bool
  pub speaker_required : Option Bool
  pub areas_required : Option Bool

pub record AssignmentReadinessCheck : Type 0 where
  pub label : String
  pub passed : Bool
  pub required : Bool

pub record AssignmentReadinessResult : Type 0 where
  pub status : AdWorkAssignmentStatus
  pub is_ready : Bool
  pub checks : List AssignmentReadinessCheck
  pub warnings : List String

-- `flag ?? otherwise`.
abbrev pub default : Bool → Option Bool → Bool
default otherwise none = otherwise
default otherwise (some b) = b

abbrev pub is_approved_driver : DriverStatus → Bool
is_approved_driver status = elim status [ DriverStatus.approved ↦ true | _ ↦ false ]

unfoldable pub driver_can_be_assigned : Option AssignmentDriverCandidate → Bool
driver_can_be_assigned none = false
driver_can_be_assigned (some driver) =
    is_approved_driver driver.onboarding_status
    && elim driver.approval_status [ none ↦ true | some status ↦ str_eq status "approved" ]

abbrev pub is_approved_vehicle : VehicleStatus → Bool
is_approved_vehicle status = elim status [ VehicleStatus.approved ↦ true | _ ↦ false ]

unfoldable pub vehicle_can_be_assigned : Option AssignmentVehicleCandidate → Bool
vehicle_can_be_assigned none = false
vehicle_can_be_assigned (some vehicle) =
    is_approved_vehicle vehicle.onboarding_status && default true vehicle.active

unfoldable pub vehicle_has_mic_system : Option AssignmentVehicleCandidate → Bool
vehicle_has_mic_system none = false
vehicle_has_mic_system (some vehicle) = vehicle.mic_system_available

abbrev pub said_yes_to : YesNoNotSure → Bool
said_yes_to answer = elim answer [ YesNoNotSure.said_yes ↦ true | _ ↦ false ]

unfoldable pub vehicle_has_gps_readiness : Option AssignmentVehicleCandidate → Bool
vehicle_has_gps_readiness none = false
vehicle_has_gps_readiness (some vehicle) =
    said_yes_to vehicle.gps_device_available || elim vehicle.gps_device_status [
      | VehicleGpsDeviceStatus.planned ↦ true
      | VehicleGpsDeviceStatus.installed ↦ true
      | _ ↦ false
    ]

starts_with : Text → Text → Bool
starts_with text [] = true
starts_with [] (c ∷ cs) = false
starts_with (d ∷ ds) (c ∷ cs) = text_eq (d ∷ []) (c ∷ []) && starts_with ds cs

-- `text.includes(part)`.
contains : Text → Text → Bool
unfolding starts_with
contains [] part = starts_with [] part
contains (d ∷ ds) part = starts_with (d ∷ ds) part || contains ds part

abbrev service_areas_of : Option AssignmentDriverCandidate → List Text
service_areas_of none = []
service_areas_of (some driver) = elim driver.service_areas [ none ↦ [] | some areas ↦ areas ]

module _ (lower : Text → Text) where
  unfoldable pub normalize_text : Option Text → Text
  normalize_text none = lower (trim [])
  normalize_text (some text) = lower (trim text)

  unfoldable pub driver_service_area_matches : Option AssignmentDriverCandidate → Option Text → Bool
  unfolding contains
  driver_service_area_matches driver areas_to_cover =
      let areas = normalize_text areas_to_cover in
      let service_areas = service_areas_of driver in
      is_given (some areas)
      && any
          (λ area.
            let normalized = normalize_text (some area) in
            is_given (some normalized) && (contains areas normalized || contains normalized areas))
          service_areas

  unfoldable pub city_matches : Option Text → Option Text → Bool
  city_matches left right =
      is_given (some (normalize_text left))
      && (is_given (some (normalize_text right))
          && text_eq (normalize_text left) (normalize_text right))

  abbrev readiness_checks :
      AssignmentAdWorkReadinessInput
      → Option AssignmentDriverCandidate
      → Option AssignmentVehicleCandidate
      → List AssignmentReadinessCheck
  readiness_checks work driver vehicle =
      record { label = "Planned dates"; passed = is_given work.start_date; required = true }
      ∷ record {
        label = "Areas to cover";
        passed = is_given (some (normalize_text work.areas_to_cover));
        required = default true work.areas_required;
      }
      ∷ record {
        label = "Approved driver assigned";
        passed = driver_can_be_assigned driver;
        required = default true work.driver_required;
      }
      ∷ record {
        label = "Approved vehicle assigned";
        passed = vehicle_can_be_assigned vehicle;
        required = default true work.vehicle_required;
      }
      ∷ record {
        label = "Speaker equipment available";
        passed = vehicle_has_mic_system vehicle;
        required = default true work.speaker_required;
      }
      ∷ record {
        label = "Package selected";
        passed = is_package_selected work.package_interest;
        required = false;
      }
      ∷ record {
        label = "Proof plan selected";
        passed = work.proof_plan_selected;
        required = false;
      }
      ∷ []

  abbrev is_availability_unknown : Option AssignmentDriverCandidate → Bool
  is_availability_unknown none = true
  is_availability_unknown (some driver) = elim driver.availability_status [
    | DriverAvailabilityStatus.unknown ↦ true
    | _ ↦ false
  ]

  abbrev readiness_warnings :
      AssignmentAdWorkReadinessInput
      → Option AssignmentDriverCandidate
      → Option AssignmentVehicleCandidate
      → List String
  readiness_warnings work driver vehicle =
      error_if (default false work.driver_required && is_availability_unknown driver)
        "Driver availability is unknown."
      ++ (error_if
            (elim vehicle [
              | none ↦ false
              | some v ↦
                  is_given work.city && (is_given v.city && not (city_matches v.city work.city))
            ])
            "Vehicle city differs from Ad Work city."
          ++ (error_if
                (elim driver [
                  | none ↦ false
                  | some d ↦
                      is_given work.areas_to_cover
                      && not (driver_service_area_matches (some d) work.areas_to_cover)
                ])
                "Driver Service Area does not clearly match Ad Work area."
              ++ error_if
                  (said_yes_to work.live_tracking_requested
                    && not (vehicle_has_gps_readiness vehicle))
                  "Premium live tracking request needs Vehicle GPS Device readiness."))

  unfoldable pub build_assignment_readiness :
      AssignmentAdWorkReadinessInput
      → Option AssignmentDriverCandidate
      → Option AssignmentVehicleCandidate
      → Option AdWorkAssignmentStatus
      → AssignmentReadinessResult
  build_assignment_readiness work driver vehicle requested_status =
      let checks = readiness_checks work driver vehicle in
      let is_ready = every (λ check. not check.required || check.passed) checks in
      record {
        status = elim requested_status [
          | some status ↦ status
          | none ↦
              if is_ready
              then AdWorkAssignmentStatus.ready_for_execution
              else AdWorkAssignmentStatus.needs_review
        ];
        is_ready = is_ready;
        checks = checks;
        warnings = readiness_warnings work driver vehicle;
      }
