-- ===== src/Registry/Tests.antt =====
-- The states and the masking of devices at concrete values.
use kootha.Prelude.{◌≡◌, ◌≢◌, ◌↔◌, ◌⊎◌, refl, false, none, some, codes, ◌++◌, arith, any, every}
use kootha.Prelude.Json.{str}
use kootha.Prelude.Text.{trim, trim_start, is_space}
use kootha.Registry.{
  removed, retired, active, mask_device_identifier, validate_gps_device_code,
  can_transition_gps_device_status, get_allowed_gps_device_status_transitions,
}
use kootha.Registry.Lifecycle.{Reaches, reaches_exactly}
use kootha.Registry.Masking.{mask_device_identifier_lem}

good_code : validate_gps_device_code (str (codes " GPS-1 ")) ≡ none
unfolding validate_gps_device_code trim trim_start is_space every
good_code = refl

no_direct_return : can_transition_gps_device_status removed active ≡ false
unfolding can_transition_gps_device_status get_allowed_gps_device_status_transitions any
no_direct_return = refl

reaches_exactly_example : Reaches removed active ↔ (removed ≢ retired ⊎ (active ≡ retired))
reaches_exactly_example = reaches_exactly removed active

mask_device_identifier_lem_example :
    mask_device_identifier (some (codes "35912345" ++ codes "6789")) ≡ codes "****6789"
mask_device_identifier_lem_example =
    mask_device_identifier_lem (codes "35912345") (codes "6789") (omega arith) refl
