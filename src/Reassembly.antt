-- ===== src/Reassembly.antt =====
-- flow/reassembly.rs: reassembly of one direction of a TCP connection.
pub mod Types
pub mod Half
pub mod Insert
pub mod Recover
pub mod Accept
pub mod Intervals
pub mod FirstSeen
pub mod Tiling
pub mod Valid
pub mod Settled
pub mod Flush
pub mod Pressure
pub mod Finalize
pub mod InOrder
pub mod Sequence
pub mod Steps
mod Tests
