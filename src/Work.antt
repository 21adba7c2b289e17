-- ===== src/Work.antt =====
-- The rules on advertisement work in packages/shared/src: execution.ts, workflow.ts, assignment.ts,
-- closure.ts and tracking.ts.
pub mod Execution
pub mod Workflow
pub mod Tracking
pub mod Assignment
pub mod Closure
pub mod Proof
mod Tests
