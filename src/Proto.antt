-- ===== src/Proto.antt =====
-- crates/proto: the data that the crates exchange. Each child is one file of crates/proto/src.
pub mod Resource
pub mod Envelope
pub mod Value
pub mod Verdict
pub mod Config
pub mod Render
pub mod Model
pub mod Signal
pub mod Effect
pub mod Event
pub mod Input
pub mod Equality
pub mod Names
pub mod Upgrade
