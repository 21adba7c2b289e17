-- ===== src/Generic/Normalized.antt =====
-- What an event has that generic-http-adapter.ts has normalized.
use kootha.Prelude.{
  ◌≡◌, refl, sym, ap, ◌∙◌, inl, inr, false, Option, none, some, String, arith, codes, Bool-cases,
}
use kootha.Prelude.Number.{ℤ}
use kootha.Prelude.Json.{Text, Value, Fields, obj, arr, str, num, bool, null, Items, get_field}
use kootha.Prelude.Print.{units}
use kootha.Prelude.Result.{Result, ok, err, ◌>>=◌}
use kootha.Telemetry.Validation.Bound.{IsCanonical, validate_canonical_telemetry_event-IsCanonical}
use kootha.Identity.Canonical.{canonicalize_stable_json}
use kootha.Identity.Event.{
  CanonicalEventIdentityInput, CanonicalEventIdentity, create_canonical_event_identity,
}
use kootha.Host.Calls.{ServerContext}
use kootha.Host.Handler.{event}
use kootha.Generic.{valid_input_event}
use kootha.Generic.Build.{
  Parts, minus, canonical_material, event_of, provenance_of, normalize_observations,
  raw_observations,
}
use kootha.Generic.Normalize.{
  Platform, identity_input, or_reason, or_missing, instants, with_identity, with_observations,
  normalize_fields, to_normalized, normalize, text_or_empty, text_or_none, number_or_none,
}
use kootha.Identity.SourceText.{
  Namespace, Source, by_vendor, by_client, by_payload, named_source, source_of,
}
use kootha.Generic.EventFields.{
  event_of-device, event_of-captured, event_of-received, event_of-identity, event_of-provenance,
  provenance_of-fields, obj_same,
}

-- The steps of a chain that gives a result.
bind-ok :
    {A B E : Type 0}
    → (r : Result E A) (next : A → Result E B) (b : B) → r >>= next ≡ ok b
    → (a : A) × (r ≡ ok a) × (next a ≡ ok b)
bind-ok (err e) next b h = absurd (ground (arith, h))
bind-ok (ok a) next b h = (a, refl, h)

or_reason-ok :
    {A E : Type 0}
    → (reason : String) (r : Result E A) (a : A) → or_reason reason r ≡ ok a
    → r ≡ ok a
or_reason-ok reason (err e) a h = absurd (ground (arith, h))
or_reason-ok reason (ok b) a h = ground (arith, h)

-- The source of a raw event of a device: the generic adapter's first version, the device, and the
-- event's own id, else its client's, else its instant, stream and payload.
abbrev source_for : Namespace → Option Text → Option Text → Fields → Text → Source
source_for space (some id) client raw hash = by_vendor space id
source_for space none (some id) raw hash = by_client space id
source_for space none none raw hash =
    by_payload space (text_or_empty (get_field "capturedAt" raw))
      (text_or_none (get_field "streamEpoch" raw)) (number_or_none (get_field "sequence" raw)) hash

abbrev pub raw_source : Fields → Text → Text → Source
raw_source raw device hash =
    source_for
      (record {
        adapter_id = codes "kootha.generic_http";
        adapter_version = codes "1";
        device_external_id = device;
      })
      (text_or_none (get_field "sourceEventId" raw)) (text_or_none (get_field "clientEventId" raw))
      raw hash

identity_input-source :
    (raw : Fields) (device hash : Text)
    → source_of (identity_input raw device (text_or_empty (get_field "capturedAt" raw)) hash)
      ≡ raw_source raw device hash
identity_input-source raw device hash =
    chosen (text_or_none (get_field "sourceEventId" raw))
      (text_or_none (get_field "clientEventId" raw))
  where
    space : Namespace
    space = record {
      adapter_id = codes "kootha.generic_http";
      adapter_version = codes "1";
      device_external_id = device;
    }

    chosen :
        (vendor client : Option Text)
        → named_source space vendor client
            (identity_input raw device (text_or_empty (get_field "capturedAt" raw)) hash)
          ≡ source_for space vendor client raw hash
    chosen (some id) client = refl
    chosen none (some id) = refl
    chosen none none = refl

-- An event that the adapter has made of a raw one for a device.
pub record IsNormalized (platform : Platform) (device received_at : Text) (raw event : Fields)
    : Type 0 where
  pub is_canonical : IsCanonical platform.floor event
  pub has_device : get_field "deviceExternalId" event ≡ some (str device)
  pub was_captured :
      get_field "capturedAt" event ≡ some (str (text_or_empty (get_field "capturedAt" raw)))
  pub was_received : get_field "receivedAt" event ≡ some (str received_at)
  pub provenance : Fields
  pub has_provenance : get_field "provenance" event ≡ some (obj provenance)
  pub is_physical : get_field "source" provenance ≡ some (str (codes "physical_device"))
  pub is_measured : get_field "synthetic" provenance ≡ some (bool false)
  pub hash : Text
  pub has_hash : get_field "canonicalPayloadHash" provenance ≡ some (str hash)
  pub named : CanonicalEventIdentityInput
  pub is_named : source_of named ≡ raw_source raw device hash
  pub made : CanonicalEventIdentity
  pub is_made :
      create_canonical_event_identity platform.fraction_text named platform.digest ≡ ok made
  pub has_identity : get_field "idempotencyIdentity" event ≡ some (str made.identity)

module _ (platform : Platform) (device received_at : Text) (raw event : Fields) where
  abbrev captured_at : Text
  captured_at = text_or_empty (get_field "capturedAt" raw)

  with_identity-IsNormalized :
      (times : ℤ × ℤ) (observations : Items) (raw_text hash : Text) (made : CanonicalEventIdentity)
      → create_canonical_event_identity platform.fraction_text
          (identity_input raw device captured_at hash)
          platform.digest
        ≡ ok made
      → with_identity platform raw device captured_at received_at times observations raw_text hash
          made
        ≡ ok event
      → IsNormalized platform device received_at raw event
  with_identity-IsNormalized times observations raw_text hash made is_made h =
      let parts : Parts = record {
        device = device;
        captured_at = captured_at;
        received_at = received_at;
        offset = minus times.1 times.0;
        observations = observations;
        raw_payload_hash = platform.digest.digest_utf8 raw_text;
        canonical_payload_hash = hash;
        identity = made.identity;
        event_id = platform.digest.digest_utf8 made.identity;
      } in
      let (canonical, built) =
        validate_canonical_telemetry_event-IsCanonical platform.floor (obj (event_of raw parts))
          event (or_reason-ok "canonical_event_invalid" _ event h) in
      let at : (key : String) → get_field key event ≡ get_field key (event_of raw parts) =
        (λ key. ap (get_field key) (sym (obj_same built))) in
      record {
        is_canonical = canonical;
        has_device = at "deviceExternalId" ∙ event_of-device raw parts;
        was_captured = at "capturedAt" ∙ event_of-captured raw parts;
        was_received = at "receivedAt" ∙ event_of-received raw parts;
        provenance = provenance_of parts;
        has_provenance = at "provenance" ∙ event_of-provenance raw parts;
        is_physical = (provenance_of-fields parts).0;
        is_measured = (provenance_of-fields parts).1;
        hash = hash;
        has_hash = (provenance_of-fields parts).2;
        named = identity_input raw device captured_at hash;
        is_named = identity_input-source raw device hash;
        made = made;
        is_made = is_made;
        has_identity = at "idempotencyIdentity" ∙ event_of-identity raw parts;
      }

  with_observations-IsNormalized :
      (times : ℤ × ℤ) (observations : Items)
      → with_observations platform raw device captured_at received_at times observations ≡ ok event
      → IsNormalized platform device received_at raw event
  with_observations-IsNormalized times observations h =
      let (raw_text, written, h1) =
        bind-ok
          (or_reason "canonical_event_invalid"
            (canonicalize_stable_json platform.fraction_text (obj raw)))
          _ event h in
      let (text, material, h2) =
        bind-ok
          (or_reason "canonical_event_invalid" (
            canonicalize_stable_json platform.fraction_text
              (canonical_material raw device captured_at observations)))
          _ event h1 in
      let hash = platform.digest.digest_utf8 text in
      let (made, is_made, h3) =
        bind-ok
          (or_reason "event_identity_invalid" (
            create_canonical_event_identity platform.fraction_text
              (identity_input raw device captured_at hash) platform.digest))
          _ event h2 in
      with_identity-IsNormalized times observations raw_text hash made
        (or_reason-ok "event_identity_invalid" _ made is_made) h3

  normalize_fields-IsNormalized :
      normalize_fields platform raw device received_at ≡ ok event
      → IsNormalized platform device received_at raw event
  unfolding normalize_fields
  normalize_fields-IsNormalized h =
      let (times, at, h1) = bind-ok (instants platform captured_at received_at) _ event h in
      let (observations, observed, h2) =
        bind-ok
          (or_missing "sensor_observation_unsupported" (
            normalize_observations (raw_observations (get_field "observations" raw)) captured_at
              device))
          _ event h1 in
      with_observations-IsNormalized times observations h2

-- An event that the adapter makes is valid; it names the device that was authenticated, whatever the
-- raw event says; it was captured when the raw event says, and received when the request was; it is
-- of a physical device and measured; and its identity is that of the source of the raw event at that
-- device: the device, the adapter, and the raw event's ids, or its instant, stream and payload.
pub normalize-IsNormalized :
    (platform : Platform) (received_at : Text) (raw : Value) (context : ServerContext)
    (found : Fields)
    → normalize platform received_at raw context ≡ event found
    → (fields : Fields) × (raw ≡ obj fields)
      × IsNormalized platform
          (units context.authenticated_device_external_id)
          received_at
          fields
          found
unfolding normalize
normalize-IsNormalized platform received_at (obj fields) context found h =
    elim (Bool-cases (valid_input_event (obj fields))) [
      | inl e ↦ (
        fields,
        refl,
        normalize_fields-IsNormalized platform (units context.authenticated_device_external_id)
            received_at fields found (accepted _ (ground (arith, h, e))),
      )
      | inr e ↦ absurd (ground (arith, h, e))
    ]
  where
    accepted : (r : Result String Fields) → to_normalized r ≡ event found → r ≡ ok found
    accepted (err reason) k = absurd (ground (arith, k))
    accepted (ok f) k = ground (arith, k)
normalize-IsNormalized platform received_at null context found h = absurd (ground (arith, h))
normalize-IsNormalized platform received_at (bool v) context found h = absurd (ground (arith, h))
normalize-IsNormalized platform received_at (num v) context found h = absurd (ground (arith, h))
normalize-IsNormalized platform received_at (str v) context found h = absurd (ground (arith, h))
normalize-IsNormalized platform received_at (arr v) context found h = absurd (ground (arith, h))
