-- ===== src/Db.antt =====
-- The database behind the repositories: the tables `runs`, `events`, `run_attempts` and
-- `queue_outbox` of backend/src/literature_agent/infrastructure/persistence/models.py, and
-- transactions over them.
mod Defs
pub mod Hoare
pub mod Returns
pub mod Runs
pub mod Events
pub mod Attempts
pub mod Outboxes
unfoldable pub use Defs.*
