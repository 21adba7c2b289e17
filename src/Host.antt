-- ===== src/Host.antt =====
-- netlify/functions/_telemetry/http-host-v2.ts: the HTTP host that takes batches of telemetry.
pub mod Reply
pub mod Calls
pub mod Request
pub mod Handler
pub mod Invariance
pub mod Access
pub mod Stored
pub mod Accounting
pub mod BestEffort
mod Tests
