-- ===== src/Telemetry.antt =====
-- The contracts of physical telemetry in packages/shared/src/physicalTelemetry.
pub mod Calendar
pub mod Timestamp
pub mod EventTime
pub mod Issue
pub mod Validation
mod Tests
