-- ===== src/Registry/Lifecycle.antt =====
-- What the transitions of deviceRegistry.ts allow a device in the long run.
use kootha.Prelude.{◌≡◌, ◌≢◌, ◌↔◌, ◌⊎◌, inl, inr, refl, sym, subst, Bool, true, false, arith, any}
use kootha.Registry.{
  GpsDeviceStatus, pending_setup, active, offline, not_working, suspended, removed, retired,
  get_allowed_gps_device_status_transitions, can_transition_gps_device_status,
}

-- A device gets from the one status to the other by allowed changes.
pub data Reaches : GpsDeviceStatus → GpsDeviceStatus → Type 0 where
  stay : (s : GpsDeviceStatus) → Reaches s s
  change :
      (s t u : GpsDeviceStatus)
      → can_transition_gps_device_status s t ≡ true
      → Reaches t u
      → Reaches s u

abbrev is_retired : GpsDeviceStatus → Bool
is_retired status = elim status [ retired ↦ true | _ ↦ false ]

stays_retired :
    (s t : GpsDeviceStatus)
    → s ≡ retired
    → can_transition_gps_device_status s t ≡ true
    → t ≡ retired
unfolding can_transition_gps_device_status get_allowed_gps_device_status_transitions any
stays_retired s t e h = ground (arith, e, h)

retired-Reaches : (s t : GpsDeviceStatus) → Reaches s t → s ≡ retired → t ≡ retired
retired-Reaches s t (stay u) e = e
retired-Reaches s t (change u v w h r) e = retired-Reaches v w r (stays_retired u v e h)

step :
    (s t u : GpsDeviceStatus)
    → can_transition_gps_device_status s t ≡ true
    → Reaches t u
    → Reaches s u
step s t u h r = change s t u h r

from_active : (t : GpsDeviceStatus) → Reaches active t
unfolding can_transition_gps_device_status get_allowed_gps_device_status_transitions any
from_active pending_setup =
    step active removed pending_setup refl
      (step removed pending_setup pending_setup refl (stay pending_setup))
from_active active = stay active
from_active offline = step active offline offline refl (stay offline)
from_active not_working = step active not_working not_working refl (stay not_working)
from_active suspended = step active suspended suspended refl (stay suspended)
from_active removed = step active removed removed refl (stay removed)
from_active retired = step active retired retired refl (stay retired)

-- Every device that is not retired can become active again.
from_any : (s t : GpsDeviceStatus) → s ≢ retired → Reaches s t
unfolding can_transition_gps_device_status get_allowed_gps_device_status_transitions any
from_any pending_setup t h = step pending_setup active t refl (from_active t)
from_any active t h = from_active t
from_any offline t h = step offline active t refl (from_active t)
from_any not_working t h = step not_working active t refl (from_active t)
from_any suspended t h = step suspended active t refl (from_active t)
from_any removed t h =
    step removed pending_setup t refl (step pending_setup active t refl (from_active t))
from_any retired t h = absurd (h refl)

allowed : (s : GpsDeviceStatus) → can_transition_gps_device_status s retired ≡ true
unfolding can_transition_gps_device_status get_allowed_gps_device_status_transitions any
allowed s = ground arith

-- A device gets from one status to another by allowed changes, in any number, exactly if it was not
-- retired before or is retired after: a retired device stays so, and any other can reach every status.
pub reaches_exactly : (s t : GpsDeviceStatus) → Reaches s t ↔ (s ≢ retired ⊎ (t ≡ retired))
reaches_exactly s t = (forth s t, back)
  where
    forth : (s t : GpsDeviceStatus) → Reaches s t → s ≢ retired ⊎ (t ≡ retired)
    forth pending_setup t r = inl (λ e. cc)
    forth active t r = inl (λ e. cc)
    forth offline t r = inl (λ e. cc)
    forth not_working t r = inl (λ e. cc)
    forth suspended t r = inl (λ e. cc)
    forth removed t r = inl (λ e. cc)
    forth retired t r = inr (retired-Reaches retired t r refl)

    to_retired : (s : GpsDeviceStatus) → Reaches s retired
    to_retired s = step s retired retired (allowed s) (stay retired)

    back : s ≢ retired ⊎ (t ≡ retired) → Reaches s t
    back (inl h) = from_any s t h
    back (inr e) = subst (Reaches s) (sym e) (to_retired s)
