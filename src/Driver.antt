-- ===== src/Driver.antt =====
-- apps/driver: the offline buffer of location points, and the tracking session.
pub mod Buffer
pub mod Session
mod Tests
