-- ===== src/Identity/Source.antt =====
-- What the identities of identity.ts and contentIdentity.ts tell apart: the source of an event, and its
-- content.
use kootha.Prelude.{
  ℕ, ◌≡◌, ◌↔◌, refl, sym, ap, ◌∙◌, inl, inr, Bool, true, false, ◌&&◌, Option, none, some, arith,
  if◌then◌else◌, codes, Bool-cases,
}
use kootha.Prelude.Number.{Number}
use kootha.Prelude.Json.{Text, Value, obj, str, field, end}
use kootha.Prelude.Result.{Result, ok, err, ◌>>=◌}
use kootha.Telemetry.Issue.{ValidationIssue}
use kootha.Identity.Canonical.{invalid_material, canonicalize_stable_json}
use kootha.Identity.Reader.{IsNumberText}
use kootha.Identity.RoundTrip.{canonicalize_stable_json-injective}
use kootha.Identity.Event.{
  IdentityKind, vendor_event_id, client_event_id, derived_payload, kind_text, text_or_null,
  number_or_null, chosen_material, are_bounded, is_bounded_text, identity_text, DigestProvider,
  CanonicalEventIdentityInput, CanonicalEventIdentity, is_sequence, material, event_identity,
  create_canonical_event_identity,
}
use kootha.Identity.SourceText.{
  Namespace, Source, by_vendor, by_client, by_payload, named_source, namespace_of_input, source_of,
  source_of_tree, tree-source,
}

-- The material is a function of the source.
abbrev namespace_tree : Namespace → Value
namespace_tree n = obj (
    field "adapterId" (str n.adapter_id) (
      field "adapterVersion" (str n.adapter_version)
        (field "deviceExternalId" (str n.device_external_id) end)))

abbrev named_tree : IdentityKind → Namespace → Text → Value
named_tree kind n id = obj (
    field "identityVersion" (str (codes "1")) (
      field "kind" (str (kind_text kind))
        (field "namespace" (namespace_tree n) (field "sourceEventId" (str id) end))))

abbrev material_of : Source → Value
material_of (by_vendor n id) = named_tree vendor_event_id n id
material_of (by_client n id) = named_tree client_event_id n id
material_of (by_payload n captured epoch sequence hash) = obj (
    field "identityVersion" (str (codes "1")) (
      field "kind" (str (kind_text derived_payload)) (
        field "namespace" (namespace_tree n) (
          field "capturedAt" (str captured) (
            field "streamEpoch" (text_or_null epoch) (
              field "sequence" (number_or_null sequence)
                (field "canonicalPayloadHash" (str hash) end)))))))

chosen_material-source :
    (vendor client : Option Text) (input : CanonicalEventIdentityInput)
    → chosen_material vendor client input
      ≡ material_of (named_source (namespace_of_input input) vendor client input)
chosen_material-source (some i) client input = refl
chosen_material-source none (some i) input = refl
chosen_material-source none none input = refl

-- What a created identity is made of.
abbrev pub IsMadeOf :
    (ℕ → Text) → CanonicalEventIdentityInput → DigestProvider → CanonicalEventIdentity → Type 0
IsMadeOf fraction_text input provider made =
    (canonicalize_stable_json fraction_text (material input) ≡ ok made.canonical_material)
    × (is_sequence input.sequence ≡ true)
    × (made.identity
        ≡ identity_text (codes "telemetry:v1:") provider
            (provider.digest_utf8 made.canonical_material))

pub create_canonical_event_identity-ok :
    (fraction_text : ℕ → Text) (input : CanonicalEventIdentityInput) (provider : DigestProvider)
    (made : CanonicalEventIdentity)
    → create_canonical_event_identity fraction_text input provider ≡ ok made
    → IsMadeOf fraction_text input provider made
unfolding create_canonical_event_identity
create_canonical_event_identity-ok fraction_text input provider made h =
    created (are_bounded input provider) (is_sequence input.sequence)
      (canonicalize_stable_json fraction_text (material input)) refl refl h
  where
    created :
        (bounded sequence : Bool) (canonical : Result ValidationIssue Text)
        → is_sequence input.sequence ≡ sequence
        → canonicalize_stable_json fraction_text (material input) ≡ canonical
        → Path
            (Result ValidationIssue CanonicalEventIdentity)
            (if bounded && sequence
              then canonical >>= event_identity input provider
              else err invalid_material)
            (ok made)
        → IsMadeOf fraction_text input provider made
    created false sequence canonical s c e = absurd (ground (arith, e))
    created true false canonical s c e = absurd (ground (arith, e))
    created true true (err issue) s c e = absurd (ground (arith, e))
    created true true (ok t) s c e =
        elim (Bool-cases (is_bounded_text (some (provider.digest_utf8 t)) 256)) [
          | inl b ↦
              let same : t ≡ made.canonical_material = ground (arith, e, b) in
              let named : identity_text (codes "telemetry:v1:") provider (provider.digest_utf8 t)
                  ≡ made.identity =
                ground (arith, e, b) in
              (
                c ∙ ap ok same,
                s,
                sym named
                    ∙ ap
                        (λ u.
                          identity_text (codes "telemetry:v1:") provider (provider.digest_utf8 u))
                        same,
              )
          | inr b ↦ absurd (ground (arith, e, b))
        ]

-- Two identities have the same canonical material exactly if the two events have the same source: the
-- same adapter, version and device, and the same vendor's id, or none and the same client's id, or
-- neither and the same instant, stream and payload.
pub create_canonical_event_identity-source :
    (fraction_text : ℕ → Text) (number_of : Text → Option Number)
    → IsNumberText fraction_text number_of
    → (a b : CanonicalEventIdentityInput) (provider : DigestProvider) (x y : CanonicalEventIdentity)
    → create_canonical_event_identity fraction_text a provider ≡ ok x
    → create_canonical_event_identity fraction_text b provider ≡ ok y
    → (x.canonical_material ≡ y.canonical_material) ↔ (source_of a ≡ source_of b)
create_canonical_event_identity-source fraction_text number_of printed a b provider x y h k =
    let (text_a, sequence_a, named_a) =
      create_canonical_event_identity-ok fraction_text a provider x h in
    let (text_b, sequence_b, named_b) =
      create_canonical_event_identity-ok fraction_text b provider y k in
    (
      λ e.
          sym (
            tree-source a.vendor_event_id a.client_event_id a.stream_epoch a.sequence a.adapter_id
              a.adapter_version a.device_external_id a.captured_at a.canonical_payload_hash
              sequence_a)
          ∙ (ap source_of_tree (
                canonicalize_stable_json-injective fraction_text number_of printed (material a)
                  (material b) y.canonical_material (text_a ∙ ap ok e) text_b)
              ∙ tree-source b.vendor_event_id b.client_event_id b.stream_epoch b.sequence
                  b.adapter_id b.adapter_version b.device_external_id b.captured_at
                  b.canonical_payload_hash sequence_b),
      λ e. same_text text_a text_b (
          chosen_material-source a.vendor_event_id a.client_event_id a
          ∙ (ap material_of e
              ∙ sym (chosen_material-source b.vendor_event_id b.client_event_id b))),
    )
  where
    same_text :
        {s t : Text}
        → canonicalize_stable_json fraction_text (material a) ≡ ok s
        → canonicalize_stable_json fraction_text (material b) ≡ ok t
        → material a ≡ material b
        → s ≡ t
    same_text {s} {t} l r e =
        text_same (sym l ∙ (ap (canonicalize_stable_json fraction_text) e ∙ r))
      where
        text_same : Path (Result ValidationIssue Text) (ok s) (ok t) → s ≡ t
        text_same q = ground (arith, q)
