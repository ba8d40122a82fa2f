-- ===== src/Kernel/Gate.antt =====
-- crates/kernel/src/gate.rs: rings 1 to 3 of the gate chain.
pub mod Canonical
pub mod Ring1
pub mod Policy
pub mod Evaluate
