-- ===== src/Kernel.antt =====
-- crates/kernel: the pure decision core. Each child is one part of crates/kernel/src.
pub mod Sched
pub mod Collections
pub mod Data
pub mod Gate
pub mod Render
pub mod Context
pub mod Turns
pub mod Evolve
pub mod Initial
pub mod Frame
pub mod Invariants
pub mod Spawn
pub mod Decide
pub mod Queries
