-- ===== src/Lifecycle.antt =====
-- The services of backend/src/literature_agent/application that move a run through its life: each
-- public method is one or more transactions over the database.
pub mod Advance
pub mod Service
pub mod Failure
pub mod Execution
pub mod Reconcile
pub mod Orphans
pub mod Dispatch
pub mod Resume
pub mod Unknown
pub mod Finish
