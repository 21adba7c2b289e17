-- ===== src/Identity/Event.antt =====
-- identity.ts: the identity of an event, made of what names it at its source. The digest comes in as a
-- function.
use kootha.Prelude.{
  ℕ, ◌^◌, Bool, true, false, ◌&&◌, Option, none, some, ◌∷◌, ◌++◌, if◌then◌else◌, ltb, leb, codes,
  length,
}
use kootha.Prelude.Number.{pos, Number, integer}
use kootha.Prelude.Json.{Text, Value, obj, str, num, null, end, field}
use kootha.Prelude.Text.{trim}
use kootha.Prelude.Result.{Result, ok, err, ◌>>=◌}
use kootha.Work.Execution.{is_filled}
use kootha.Telemetry.Issue.{ValidationIssue, invalid_value}
use kootha.Identity.Canonical.{invalid_material, canonicalize_stable_json}

pub record DigestProvider : Type 0 where
  pub algorithm : Text
  pub digest_utf8 : Text → Text

pub record CanonicalEventIdentityInput : Type 0 where
  pub adapter_id : Text
  pub adapter_version : Text
  pub device_external_id : Text
  pub vendor_event_id : Option Text
  pub client_event_id : Option Text
  pub captured_at : Text
  pub stream_epoch : Option Text
  pub sequence : Option Number
  pub canonical_payload_hash : Text

pub data IdentityKind : Type 0 where
  vendor_event_id client_event_id derived_payload : IdentityKind

pub record CanonicalEventIdentity : Type 0 where
  pub kind : IdentityKind
  pub identity : Text
  pub canonical_material : Text

unfoldable pub is_bounded_text : Option Text → ℕ → Bool
unfolding trim
is_bounded_text none maximum_length = true
is_bounded_text (some text) maximum_length = is_filled text && leb (length text) maximum_length

unfoldable pub is_sequence : Option Number → Bool
is_sequence none = true
is_sequence (some (integer (pos n))) = ltb n (2 ^ 53)
is_sequence (some _) = false

abbrev pub kind_text : IdentityKind → Text
kind_text vendor_event_id = codes "vendor_event_id"
kind_text client_event_id = codes "client_event_id"
kind_text derived_payload = codes "derived_payload"

abbrev pub text_or_null : Option Text → Value
text_or_null none = null
text_or_null (some text) = str text

abbrev pub number_or_null : Option Number → Value
number_or_null none = null
number_or_null (some n) = num n

abbrev pub namespace : CanonicalEventIdentityInput → Value
namespace input = obj (
    field "adapterId" (str input.adapter_id) (
      field "adapterVersion" (str input.adapter_version)
        (field "deviceExternalId" (str input.device_external_id) end)))

-- The material of an event that its vendor or its client has named.
abbrev pub named_material : IdentityKind → Text → CanonicalEventIdentityInput → Value
named_material kind source_event_id input = obj (
    field "identityVersion" (str (codes "1")) (
      field "kind" (str (kind_text kind))
        (field "namespace" (namespace input) (field "sourceEventId" (str source_event_id) end))))

abbrev pub derived_material : CanonicalEventIdentityInput → Value
derived_material input = obj (
    field "identityVersion" (str (codes "1")) (
      field "kind" (str (kind_text derived_payload)) (
        field "namespace" (namespace input) (
          field "capturedAt" (str input.captured_at) (
            field "streamEpoch" (text_or_null input.stream_epoch) (
              field "sequence" (number_or_null input.sequence)
                (field "canonicalPayloadHash" (str input.canonical_payload_hash) end)))))))

abbrev pub chosen_kind : Option Text → Option Text → IdentityKind
chosen_kind (some vendor) client = vendor_event_id
chosen_kind none (some client) = client_event_id
chosen_kind none none = derived_payload

abbrev pub chosen_material : Option Text → Option Text → CanonicalEventIdentityInput → Value
chosen_material (some vendor) client input = named_material vendor_event_id vendor input
chosen_material none (some client) input = named_material client_event_id client input
chosen_material none none input = derived_material input

abbrev pub material : CanonicalEventIdentityInput → Value
material input = chosen_material input.vendor_event_id input.client_event_id input

abbrev pub are_bounded : CanonicalEventIdentityInput → DigestProvider → Bool
are_bounded input provider =
    is_bounded_text (some input.adapter_id) 64
    && (is_bounded_text (some input.adapter_version) 64
        && (is_bounded_text (some input.device_external_id) 128
            && (is_bounded_text input.vendor_event_id 128
                && (is_bounded_text input.client_event_id 128
                    && (is_bounded_text (some input.captured_at) 40
                        && (is_bounded_text input.stream_epoch 128
                            && (is_bounded_text (some input.canonical_payload_hash) 256
                                && is_bounded_text (some provider.algorithm) 32)))))))

abbrev pub invalid_digest : ValidationIssue
invalid_digest = record { path = codes "$.digest"; code = invalid_value }

-- The identity that a digest gives: `prefix:algorithm:digest`.
abbrev pub identity_text : Text → DigestProvider → Text → Text
identity_text prefix provider digest = prefix ++ (provider.algorithm ++ b':' ∷ digest)

abbrev pub event_identity :
    CanonicalEventIdentityInput
    → DigestProvider
    → Text
    → Result ValidationIssue CanonicalEventIdentity
event_identity input provider canonical =
    let digest = provider.digest_utf8 canonical in
    if is_bounded_text (some digest) 256
    then ok (record {
      kind = chosen_kind input.vendor_event_id input.client_event_id;
      identity = identity_text (codes "telemetry:v1:") provider digest;
      canonical_material = canonical;
    })
    else err invalid_digest

unfoldable pub create_canonical_event_identity :
    (ℕ → Text)
    → CanonicalEventIdentityInput
    → DigestProvider
    → Result ValidationIssue CanonicalEventIdentity
unfolding is_bounded_text is_sequence canonicalize_stable_json
create_canonical_event_identity fraction_text input provider =
    let created =
      canonicalize_stable_json fraction_text (material input) >>= event_identity input provider in
    if are_bounded input provider && is_sequence input.sequence
    then created
    else err invalid_material
