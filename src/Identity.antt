-- ===== src/Identity.antt =====
-- packages/shared/src/physicalTelemetry/identity.ts and contentIdentity.ts: the canonical text of a value,
-- and the identities of an event that are made of it.
pub mod Canonical
pub mod Measure
pub mod Limits
pub mod Order
pub mod Strings
pub mod Reader
pub mod Collections
pub mod RoundTrip
pub mod Event
pub mod Content
pub mod SourceText
pub mod Source
pub mod Duplicate
pub mod Decimal
mod Tests
