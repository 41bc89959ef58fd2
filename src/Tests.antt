-- ===== src/Tests.antt =====
-- The theorems applied to small databases.
pub mod Fixtures
mod Lifecycle
mod Policies
mod Leases
mod Citations
mod Documents
mod Controls
mod Budgets
