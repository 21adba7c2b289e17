-- ===== src/Identity/SourceText.antt =====
-- The source of an event, and the one that stands in a canonical text of identity.ts.
use kootha.Prelude.{◌≡◌, refl, true, Option, none, some, String, [], arith, if◌then◌else◌, codes}
use kootha.Prelude.Number.{pos, negsuc, Number, integer, fraction, infinity, nan}
use kootha.Prelude.Json.{Text}
use kootha.Prelude.Text.{text_eq}
use kootha.Identity.Measure.{sorted}
use kootha.Identity.Reader.{Tree, Members, members, member, no_members, text, number, nothing, tree}
use kootha.Identity.RoundTrip.{canonical_tree}
use kootha.Identity.Event.{CanonicalEventIdentityInput, is_sequence, material}

pub record Namespace : Type 0 where
  pub adapter_id : Text
  pub adapter_version : Text
  pub device_external_id : Text

-- What names an event: its vendor's id, else its client's, else what was measured when and where in the
-- stream.
pub data Source : Type 0 where
  by_vendor : Namespace → Text → Source
  by_client : Namespace → Text → Source
  by_payload : Namespace → Text → Option Text → Option Number → Text → Source

abbrev pub named_source :
    Namespace → Option Text → Option Text → CanonicalEventIdentityInput → Source
named_source namespace (some vendor) client input = by_vendor namespace vendor
named_source namespace none (some client) input = by_client namespace client
named_source namespace none none input =
    by_payload namespace input.captured_at input.stream_epoch input.sequence
      input.canonical_payload_hash

abbrev pub namespace_of_input : CanonicalEventIdentityInput → Namespace
namespace_of_input input = record {
  adapter_id = input.adapter_id;
  adapter_version = input.adapter_version;
  device_external_id = input.device_external_id;
}

abbrev pub source_of : CanonicalEventIdentityInput → Source
source_of input =
    named_source (namespace_of_input input) input.vendor_event_id input.client_event_id input

abbrev pub find : Text → Members → Tree
find key no_members = nothing
find key (member k t rest) = if text_eq key k then t else find key rest

abbrev pub at : String → Tree → Tree
at key (members ms) = find (codes key) ms
at key _ = nothing

abbrev pub text_of : Tree → Text
text_of (text t) = t
text_of _ = []

abbrev pub optional_text : Tree → Option Text
optional_text (text t) = some t
optional_text _ = none

abbrev pub optional_number : Tree → Option Number
optional_number (number n) = some n
optional_number _ = none

abbrev pub namespace_of : Tree → Namespace
namespace_of t = record {
  adapter_id = text_of (at "adapterId" t);
  adapter_version = text_of (at "adapterVersion" t);
  device_external_id = text_of (at "deviceExternalId" t);
}

-- The source that stands in a canonical text.
pub source_of_tree : Tree → Source
source_of_tree t =
    if text_eq (text_of (at "kind" t)) (codes "vendor_event_id")
    then by_vendor (namespace_of (at "namespace" t)) (text_of (at "sourceEventId" t))
    else if text_eq (text_of (at "kind" t)) (codes "client_event_id")
    then by_client (namespace_of (at "namespace" t)) (text_of (at "sourceEventId" t))
    else by_payload (namespace_of (at "namespace" t)) (text_of (at "capturedAt" t))
        (optional_text (at "streamEpoch" t)) (optional_number (at "sequence" t))
        (text_of (at "canonicalPayloadHash" t))

pub tree-source :
    (vendor client epoch : Option Text) (sequence : Option Number) (a v d c h : Text)
    → is_sequence sequence ≡ true
    → let input : CanonicalEventIdentityInput = record {
      adapter_id = a;
      adapter_version = v;
      device_external_id = d;
      vendor_event_id = vendor;
      client_event_id = client;
      captured_at = c;
      stream_epoch = epoch;
      sequence = sequence;
      canonical_payload_hash = h;
    } in
      source_of_tree (canonical_tree (material input)) ≡ source_of input
unfolding source_of_tree sorted tree is_sequence
tree-source (some i) client epoch sequence a v d c h s = refl
tree-source none (some i) epoch sequence a v d c h s = refl
tree-source none none none none a v d c h s = refl
tree-source none none (some e) none a v d c h s = refl
tree-source none none none (some (integer (pos n))) a v d c h s = refl
tree-source none none (some e) (some (integer (pos n))) a v d c h s = refl
tree-source none none epoch (some (integer (negsuc n))) a v d c h s = absurd (ground (arith, s))
tree-source none none epoch (some (fraction n)) a v d c h s = absurd (ground (arith, s))
tree-source none none epoch (some infinity) a v d c h s = absurd (ground (arith, s))
tree-source none none epoch (some nan) a v d c h s = absurd (ground (arith, s))
