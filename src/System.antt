-- ===== src/System.antt =====
-- The whole of the run lifecycle: every call that an API request, a worker or a background loop can
-- make, in any order, each as the transactions that it commits.
pub mod Calls
pub mod Sound
