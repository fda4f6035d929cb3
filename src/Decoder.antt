-- ===== src/Decoder.antt =====
-- capture/parser.rs, the decoder of captured frames.
pub mod Types
pub mod Domain
pub mod Headers
pub mod Payload
pub mod Network
pub mod Layers
pub mod Fuel
pub mod Runs
pub mod Total
pub mod Truncated
pub mod Wire
pub mod Vlan
pub mod Frames
pub mod Tests
