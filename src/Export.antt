-- ===== src/Export.antt =====
-- packages/shared/src/operationsExport.ts: the export of rows as CSV, and the check of the envelope of an
-- export.
pub mod Csv
pub mod Rfc4180
pub mod Reader
pub mod Envelope
pub mod Accepted
mod Tests
