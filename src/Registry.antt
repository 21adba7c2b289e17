-- ===== src/Registry.antt =====
-- packages/shared/src/deviceRegistry.ts: the states of a GPS device, its readiness for proof, and the
-- checks and the masking of its texts.
pub mod Lifecycle
pub mod Masking
mod Tests
use kootha.Prelude.{
  ℕ, ◌+◌, ◌-◌, ◌≤◌, ◌≡◌, refl, Bool, true, false, not, ◌&&◌, ◌||◌, Option, none, some, List, [],
  ◌∷◌, ◌++◌, String, codes, arith, if◌then◌else◌, ltb, leb, ◌==◌, length, any, every, drop,
}
use kootha.Prelude.Json.{Text, Value, str}
use kootha.Prelude.Text.{trim}

pub data GpsDeviceStatus : Type 0 where
  pending_setup active offline not_working suspended removed retired : GpsDeviceStatus

abbrev pub place : GpsDeviceStatus → ℕ
place status = elim status [
  | pending_setup ↦ 0
  | active ↦ 1
  | offline ↦ 2
  | not_working ↦ 3
  | suspended ↦ 4
  | removed ↦ 5
  | retired ↦ 6
]

abbrev pub same_status : GpsDeviceStatus → GpsDeviceStatus → Bool
same_status s t = place s == place t

-- The table `transitions`.
unfoldable pub get_allowed_gps_device_status_transitions : GpsDeviceStatus → List GpsDeviceStatus
get_allowed_gps_device_status_transitions status = elim status [
  | pending_setup ↦ active ∷ suspended ∷ removed ∷ retired ∷ []
  | active ↦ offline ∷ not_working ∷ suspended ∷ removed ∷ retired ∷ []
  | offline ↦ active ∷ not_working ∷ suspended ∷ removed ∷ retired ∷ []
  | not_working ↦ active ∷ suspended ∷ removed ∷ retired ∷ []
  | suspended ↦ active ∷ removed ∷ retired ∷ []
  | removed ↦ pending_setup ∷ retired ∷ []
  | retired ↦ []
]

unfoldable pub can_transition_gps_device_status : GpsDeviceStatus → GpsDeviceStatus → Bool
can_transition_gps_device_status from to =
    same_status from to || any (same_status to) (get_allowed_gps_device_status_transitions from)

pub data CredentialStatus : Type 0 where
  pending active rotating revoked expired : CredentialStatus

pub data InstallationStatus : Type 0 where
  pending planned installed removed not_working : InstallationStatus

pub data SignalStatus : Type 0 where
  unknown ready degraded unavailable : SignalStatus

pub record ProofReadinessInput : Type 0 where
  pub status : GpsDeviceStatus
  pub vehicle_id : Option Text
  pub credential_status : Option CredentialStatus
  pub installation_status : Option InstallationStatus
  pub gps_readiness : Option SignalStatus
  pub gsm_readiness : Option SignalStatus
  pub server_proof_ready : Bool

abbrev is_given : Option Text → Bool
is_given none = false
is_given (some []) = false
is_given (some (c ∷ cs)) = true

abbrev pub is_active_credential : Option CredentialStatus → Bool
is_active_credential (some CredentialStatus.active) = true
is_active_credential _ = false

abbrev pub is_installed : Option InstallationStatus → Bool
is_installed (some installed) = true
is_installed _ = false

abbrev pub is_signal_ready : Option SignalStatus → Bool
is_signal_ready (some ready) = true
is_signal_ready _ = false

abbrev pub is_signal_degraded : Option SignalStatus → Bool
is_signal_degraded (some degraded) = true
is_signal_degraded _ = false

unfoldable pub is_gps_device_proof_ready : ProofReadinessInput → Bool
is_gps_device_proof_ready input =
    input.server_proof_ready
    && (same_status input.status GpsDeviceStatus.active
        && (is_given input.vehicle_id
            && (is_active_credential input.credential_status
                && (is_installed input.installation_status
                    && (is_signal_ready input.gps_readiness
                        && (is_signal_ready input.gsm_readiness
                            || is_signal_degraded input.gsm_readiness))))))

-- `/^[A-Za-z0-9][A-Za-z0-9._-]{2,63}$/`.
abbrev is_letter_or_digit : ℕ → Bool
is_letter_or_digit c =
    leb b'A' c && leb c b'Z' || (leb b'a' c && leb c b'z' || leb b'0' c && leb c b'9')

abbrev is_code_char : ℕ → Bool
is_code_char c = is_letter_or_digit c || (c == b'.' || (c == b'_' || c == b'-'))

abbrev is_device_code : Text → Bool
is_device_code [] = false
is_device_code (c ∷ cs) =
    is_letter_or_digit c && (every is_code_char cs && (leb 2 (length cs) && leb (length cs) 63))

unfoldable pub validate_gps_device_code : Value → Option String
validate_gps_device_code (str text) =
    if is_device_code (trim text)
    then none
    else some "Device code must be 3-64 letters, numbers, dots, dashes, or underscores."
validate_gps_device_code _ =
    some "Device code must be 3-64 letters, numbers, dots, dashes, or underscores."

unfoldable pub validate_gps_device_reason : Value → Option String
validate_gps_device_reason (str text) =
    if ltb (length (trim text)) 3 || ltb 500 (length (trim text))
    then some "Reason must be between 3 and 500 characters."
    else none
validate_gps_device_reason _ = some "Reason must be between 3 and 500 characters."

unfoldable pub mask_device_identifier : Option Text → Text
mask_device_identifier none = codes "Not recorded"
mask_device_identifier (some []) = codes "Not recorded"
mask_device_identifier (some (c ∷ cs)) =
    if leb (length (c ∷ cs)) 4
    then codes "****"
    else codes "****" ++ drop (length (c ∷ cs) - 4) (c ∷ cs)
