-- ===== src/Kernel/Invariants.antt =====
-- What every event of crates/kernel/src/state.rs keeps: invariants of `evolve`.
pub mod Clock
pub mod Flight
pub mod Taints
pub mod Matching
pub mod Standing
pub mod Holding
pub mod Recording
pub mod Ended
