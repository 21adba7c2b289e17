-- ===== src/Generic/EventFields.antt =====
-- The fields of an event that generic-http-adapter.ts has built.
use kootha.Prelude.{◌≡◌, refl, ◌∙◌, false, Option, none, some, String, arith, str_eq, codes}
use kootha.Prelude.Json.{Value, Fields, obj, str, bool, Items, no_items, item, get_field}
use kootha.Generic.Build.{
  Parts, if_present, stream_field, observations_field, event_of, provenance_of,
}

pub get_field-if_present :
    (key other : String) (value : Option Value) (rest : Fields)
    → str_eq other key ≡ false
    → get_field key (if_present other value rest) ≡ get_field key rest
unfolding get_field
get_field-if_present key other none rest h = refl
get_field-if_present key other (some v) rest h = rw h refl

pub get_field-stream_field :
    (key : String) (epoch sequence : Option Value) (rest : Fields)
    → str_eq "stream" key ≡ false
    → get_field key (stream_field epoch sequence rest) ≡ get_field key rest
unfolding get_field
get_field-stream_field key none sequence rest h = refl
get_field-stream_field key (some v) sequence rest h = rw h refl

pub get_field-observations_field :
    (key : String) (items : Items) (rest : Fields)
    → str_eq "observations" key ≡ false
    → get_field key (observations_field items rest) ≡ get_field key rest
unfolding get_field
get_field-observations_field key no_items rest h = refl
get_field-observations_field key (item v vs) rest h = rw h refl

module _ (raw : Fields) (p : Parts) where
  pub event_of-device : get_field "deviceExternalId" (event_of raw p) ≡ some (str p.device)
  unfolding event_of get_field
  event_of-device =
      get_field-if_present "deviceExternalId" "vendorEventId" (get_field "sourceEventId" raw) _ refl
      ∙ (get_field-if_present "deviceExternalId" "clientEventId" (get_field "clientEventId" raw) _
          refl)

  pub event_of-captured : get_field "capturedAt" (event_of raw p) ≡ some (str p.captured_at)
  unfolding event_of get_field
  event_of-captured =
      get_field-if_present "capturedAt" "vendorEventId" (get_field "sourceEventId" raw) _ refl
      ∙ (get_field-if_present "capturedAt" "clientEventId" (get_field "clientEventId" raw) _ refl
          ∙ (get_field-stream_field "capturedAt" (get_field "streamEpoch" raw)
              (get_field "sequence" raw) _ refl))

  pub event_of-received : get_field "receivedAt" (event_of raw p) ≡ some (str p.received_at)
  unfolding event_of get_field
  event_of-received =
      get_field-if_present "receivedAt" "vendorEventId" (get_field "sourceEventId" raw) _ refl
      ∙ (get_field-if_present "receivedAt" "clientEventId" (get_field "clientEventId" raw) _ refl
          ∙ (get_field-stream_field "receivedAt" (get_field "streamEpoch" raw)
              (get_field "sequence" raw) _ refl))

  pub event_of-identity : get_field "idempotencyIdentity" (event_of raw p) ≡ some (str p.identity)
  unfolding event_of get_field
  event_of-identity = refl

  pub event_of-provenance : get_field "provenance" (event_of raw p) ≡ some (obj (provenance_of p))
  unfolding event_of get_field
  event_of-provenance =
      get_field-if_present "provenance" "vendorEventId" (get_field "sourceEventId" raw) _ refl
      ∙ (get_field-if_present "provenance" "clientEventId" (get_field "clientEventId" raw) _ refl
          ∙ (get_field-stream_field "provenance" (get_field "streamEpoch" raw)
                (get_field "sequence" raw) _ refl
              ∙ (get_field-if_present "provenance" "position" (get_field "position" raw) _ refl
                  ∙ (get_field-if_present "provenance" "health" (get_field "health" raw) _ refl
                      ∙ (get_field-observations_field "provenance" p.observations _ refl)))))

pub provenance_of-fields :
    (p : Parts)
    → (get_field "source" (provenance_of p) ≡ some (str (codes "physical_device")))
      × (get_field "synthetic" (provenance_of p) ≡ some (bool false))
      × (get_field "canonicalPayloadHash" (provenance_of p) ≡ some (str p.canonical_payload_hash))
unfolding get_field
provenance_of-fields p = (refl, refl, refl)

pub obj_same : {f g : Fields} → obj f ≡ obj g → f ≡ g
obj_same h = ground (arith, h)
