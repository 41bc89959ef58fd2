-- ===== src/Invariant.antt =====
-- The invariant of the database and its proofs: one module for each table, then for each service.
pub mod Attempts
pub mod Outboxes
pub mod Sound
pub mod Actions
pub mod Service
pub mod Create
pub mod Failure
pub mod Execution
pub mod Execute
pub mod Finish
pub mod Reconcile
pub mod Dispatch
pub mod Resume
pub mod Orphans
