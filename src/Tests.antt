-- ===== src/Tests.antt =====
-- Concrete inputs at which the theorems apply.
pub mod Fixtures
pub mod Gate
pub mod Sched
pub mod Journal
pub mod Parts
pub mod Budgets
pub mod Decide
pub mod Promises
pub mod Upgrade
