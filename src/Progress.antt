-- ===== src/Progress.antt =====
-- Theorems that the services return: with a legal target and fresh identifiers nothing is raised, and
-- the database afterwards is written out.
pub mod Step
pub mod Stale
pub mod Cancel
pub mod Claim
pub mod Failure
pub mod Recover
