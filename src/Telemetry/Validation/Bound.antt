-- ===== src/Telemetry/Validation/Bound.antt =====
-- What an event has that validation.ts accepts: one device, times that can be read, and observations that
-- belong to it.
use kootha.Prelude.{
  ℕ, suc, ◌≤◌, ◌≡◌, refl, ap, inl, inr, subst, Bool, true, false, not, Option, none, some, List, [],
  ◌∷◌, map, arith, if◌then◌else◌, ltb, All, Bool-cases,
}
use kootha.Prelude.Number.{ℤ}
use kootha.Prelude.Json.{
  Text, Value, Fields, obj, arr, str, num, bool, null, Items, no_items, item, get_field,
  count_items, items_list,
}
use kootha.Prelude.Result.{Result, ok, err}
use kootha.Telemetry.Issue.{ValidationIssue, IssueCode, issue_if}
use kootha.Telemetry.Validation.{is_empty, validate_canonical_sensor_observation}
use kootha.Telemetry.Validation.Parts.{
  if_defined, is_same, validate_binding, bind_observation, bind_observations,
  validate_observation_bindings,
}
use kootha.Telemetry.Validation.Event.{
  in_event, validate_provenance, validate_observation_items, validate_observations, event_parts,
  validate_event_record, validate_canonical_telemetry_event,
}
use kootha.Telemetry.Validation.Checked.{
  IsNone, append-IsNone, concat-IsNone, issue_if-none, is_same-same, HasText, validate_text-HasText,
  HasTime, validate_iso_timestamp-HasTime, if_object-object,
}

-- An observation that belongs to an event with the given provenance: an object with the event's device
-- and instant, and the provenance's source, marker and version.
pub record IsBound (event provenance : Fields) (value : Value) : Type 0 where
  pub observation : Fields
  pub is_object : value ≡ obj observation
  pub same_device : get_field "deviceExternalId" observation ≡ get_field "deviceExternalId" event
  pub same_source : get_field "source" observation ≡ get_field "source" provenance
  pub same_marker : get_field "synthetic" observation ≡ get_field "synthetic" provenance
  pub same_instant : get_field "capturedAt" observation ≡ get_field "capturedAt" event
  pub same_version :
      get_field "normalizationVersion" observation ≡ get_field "normalizationVersion" provenance

same_field :
    (a b : Option Value) (path : Text)
    → IsNone (issue_if (not (is_same a b)) path IssueCode.invalid_value)
    → a ≡ b
same_field a b path h =
    is_same-same a b (positive (is_same a b) (issue_if-none (not (is_same a b)) path _ h))
  where
    positive : (t : Bool) → not t ≡ false → t ≡ true
    positive t k = ground (arith, k)

validate_binding-IsBound :
    (event provenance observation : Fields) (index : ℕ)
    → IsNone (validate_binding event provenance index observation)
    → IsBound event provenance (obj observation)
unfolding validate_binding
validate_binding-IsBound event provenance observation index h =
    let (device, h1) = append-IsNone _ _ h in
    let (source, h2) = append-IsNone _ _ h1 in
    let (marker, h3) = append-IsNone _ _ h2 in
    let (instant, version) = append-IsNone _ _ h3 in
    record {
      observation = observation;
      is_object = refl;
      same_device = same_field _ _ _ device;
      same_source = same_field _ _ _ source;
      same_marker = same_field _ _ _ marker;
      same_instant = same_field _ _ _ instant;
      same_version = same_field _ _ _ version;
    }

map-IsNone :
    (index : ℕ) (issues : List ValidationIssue)
    → IsNone (map (in_event index) issues)
    → IsNone issues
map-IsNone index [] h = refl
map-IsNone index (i ∷ is) h = absurd (ground (arith, h))

module _ (floor : ℕ → ℤ) (event provenance : Fields) where
  observation-IsBound :
      (index : ℕ) (value : Value)
      → IsNone (validate_canonical_sensor_observation floor value)
      → IsNone (bind_observation event provenance index value)
      → IsBound event provenance value
  unfolding validate_canonical_sensor_observation
  observation-IsBound index (obj fields) h k =
      validate_binding-IsBound event provenance fields index k
  observation-IsBound index null h k = absurd (ground (arith, h))
  observation-IsBound index (bool v) h k = absurd (ground (arith, h))
  observation-IsBound index (num v) h k = absurd (ground (arith, h))
  observation-IsBound index (str v) h k = absurd (ground (arith, h))
  observation-IsBound index (arr v) h k = absurd (ground (arith, h))

  items-IsBound :
      (index : ℕ) (items : Items)
      → IsNone (validate_observation_items floor index items)
      → IsNone (bind_observations event provenance index items)
      → All (IsBound event provenance) (items_list items)
  unfolding validate_observation_items bind_observations
  items-IsBound index no_items h k = tt
  items-IsBound index (item value rest) h k =
      let (valid, h1) = append-IsNone _ _ h in
      let (bound, k1) = append-IsNone _ _ k in
      (
        observation-IsBound index value (map-IsNone index _ valid) bound,
        items-IsBound (suc index) rest h1 k1,
      )

  -- The observations of an event: none, or at most 32 that belong to it.
  abbrev pub HasObservations : Option Value → Type 0
  HasObservations none = Unit
  HasObservations (some (arr items)) =
      (count_items items ≤ 32) × All (IsBound event provenance) (items_list items)
  HasObservations (some _) = ⊥

  observations-HasObservations :
      (value : Option Value)
      → IsNone (if_defined value (validate_observations floor))
      → IsNone (validate_observation_bindings event value (some (obj provenance)))
      → HasObservations value
  unfolding validate_observations validate_observation_bindings
  observations-HasObservations none h k = tt
  observations-HasObservations (some (arr items)) h k =
      elim (Bool-cases (ltb 32 (count_items items))) [
        | inl e ↦ absurd (ground (arith, h, e))
        | inr e ↦ (ground (arith, e), items-IsBound 0 items (ground (arith, h, e)) k)
      ]
  observations-HasObservations (some null) h k = ground (arith, h)
  observations-HasObservations (some (bool v)) h k = ground (arith, h)
  observations-HasObservations (some (num v)) h k = ground (arith, h)
  observations-HasObservations (some (str v)) h k = ground (arith, h)
  observations-HasObservations (some (obj v)) h k = ground (arith, h)

-- What an accepted event has.
pub record IsCanonical (floor : ℕ → ℤ) (event : Fields) : Type 0 where
  pub has_device : HasText (get_field "deviceExternalId" event) 128
  pub is_authenticated :
      get_field "authenticatedDeviceExternalId" event ≡ get_field "deviceExternalId" event
  pub has_identity : HasText (get_field "idempotencyIdentity" event) 256
  pub was_captured : HasTime (get_field "capturedAt" event)
  pub was_received : HasTime (get_field "receivedAt" event)
  pub was_normalized : HasTime (get_field "normalizedAt" event)
  pub provenance : Fields
  pub has_provenance : get_field "provenance" event ≡ some (obj provenance)
  pub has_observations : HasObservations floor event provenance (get_field "observations" event)

validate_event_record-IsCanonical :
    (floor : ℕ → ℤ) (event : Fields)
    → IsNone (validate_event_record floor event)
    → IsCanonical floor event
unfolding validate_event_record event_parts
validate_event_record-IsCanonical floor event h =
    let parts = concat-IsNone (event_parts floor event) h in
    let later = parts.1.1.1.1.1.1.1.1 in
    let last = later.1.1.1.1.1.1.1.1.1 in
    let (found, has_provenance) =
      if_object-object (get_field "provenance" event) _ validate_provenance last.1.1.0 in
    record {
      has_device = validate_text-HasText _ _ 128 parts.1.1.1.1.1.1.0;
      is_authenticated = same_field _ _ _ later.0;
      has_identity = validate_text-HasText _ _ 256 parts.1.1.1.0;
      was_captured = validate_iso_timestamp-HasTime _ _ later.1.1.1.0;
      was_received = validate_iso_timestamp-HasTime _ _ later.1.1.1.1.0;
      was_normalized = validate_iso_timestamp-HasTime _ _ later.1.1.1.1.1.0;
      provenance = found;
      has_provenance = has_provenance;
      has_observations = observations-HasObservations floor event found _ last.0 (
          subst
            (λ p. IsNone (validate_observation_bindings event (get_field "observations" event) p))
            has_provenance last.1.1.1.0);
    }

-- An accepted event names one device, which is the authenticated one; its three times can be read; and
-- it has at most 32 observations, each of this device, at the event's instant, and with the source, the
-- marker and the version of its provenance.
pub validate_canonical_telemetry_event-IsCanonical :
    (floor : ℕ → ℤ) (value : Value) (event : Fields)
    → validate_canonical_telemetry_event floor value ≡ ok event
    → IsCanonical floor event × (value ≡ obj event)
unfolding validate_canonical_telemetry_event
validate_canonical_telemetry_event-IsCanonical floor (obj fields) event h =
    let same : fields ≡ event = found (validate_event_record floor fields) h in
    (
      subst (IsCanonical floor) same (
          validate_event_record-IsCanonical floor fields
            (none_found (validate_event_record floor fields) h)),
      ap obj same,
    )
  where
    found :
        (issues : List ValidationIssue)
        → Path
            (Result (List ValidationIssue) Fields)
            (if is_empty issues then ok fields else err issues)
            (ok event)
        → fields ≡ event
    found issues k = ground (arith, k)

    none_found :
        (issues : List ValidationIssue)
        → Path
            (Result (List ValidationIssue) Fields)
            (if is_empty issues then ok fields else err issues)
            (ok event)
        → IsNone issues
    none_found issues k = ground (arith, k)
validate_canonical_telemetry_event-IsCanonical floor null event h = absurd (ground (arith, h))
validate_canonical_telemetry_event-IsCanonical floor (bool v) event h = absurd (ground (arith, h))
validate_canonical_telemetry_event-IsCanonical floor (num v) event h = absurd (ground (arith, h))
validate_canonical_telemetry_event-IsCanonical floor (str v) event h = absurd (ground (arith, h))
validate_canonical_telemetry_event-IsCanonical floor (arr v) event h = absurd (ground (arith, h))
