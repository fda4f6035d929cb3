-- ===== src/Fragments.antt =====
-- capture/fragment.rs, reassembly of IPv4 and IPv6 fragments under bounds.
pub mod Types
pub mod Pieces
pub mod Cache
pub mod Intervals
pub mod Verdicts
pub mod Sound
pub mod Limits
pub mod Valid
pub mod Complete
pub mod Overlap
pub mod Waiting
pub mod Expiry
pub mod Shared
mod Tests
