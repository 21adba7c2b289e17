-- ===== src/Generic/Hosted.antt =====
-- The HTTP host with the generic adapter: http-host-v2.ts and generic-http-adapter.ts together.
use kootha.Prelude.{ℕ, Option, List}
use kootha.Prelude.Json.{Text, Value, Fields, obj}
use kootha.Prelude.Print.{units}
use kootha.Host.Calls.{ServerContext, Dependencies}
use kootha.Host.Request.{Request}
use kootha.Host.Handler.{Adapter}
use kootha.Host.Stored.{IsRaw}
use kootha.Generic.{parse}
use kootha.Generic.Normalize.{Platform, normalize}
use kootha.Generic.Normalized.{IsNormalized}

-- The generic adapter, for a request that was received at the given time.
unfoldable pub generic_adapter : (List ℕ → Option Value) → Platform → Text → Adapter Fields
unfolding parse normalize
generic_adapter json platform received_at = record {
  json = json;
  parse = parse;
  normalize = normalize platform received_at;
}

module _ (json : List ℕ → Option Value) (platform : Platform) (received_at : Text)
    (deps : Dependencies Fields) (request : Request) where
  -- An event that is stored for a context: made of a raw event of the request, for the context's own
  -- device.
  abbrev pub IsOwn : Fields → ServerContext → Type 0
  IsOwn event context =
      (raw : Fields) × IsRaw deps (generic_adapter json platform received_at) request (obj raw)
      × IsNormalized platform (units context.authenticated_device_external_id) received_at raw event
