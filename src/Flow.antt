-- ===== src/Flow.antt =====
-- flow/mod.rs, the flow engine.
pub mod Types
pub mod Tombstones
pub mod Recent
pub mod Refines
pub mod State
pub mod Close
pub mod Packet
pub mod Admission
pub mod Shard
pub mod Timers
pub mod Carries
pub mod Effects
pub mod Counts
pub mod Sane
pub mod Accounts
pub mod Heap
pub mod Timed
pub mod Lifetimes
pub mod Tests
