-- ===== src/FlowKeys.antt =====
-- model.rs: endpoints, directions and the keys of flows.
pub mod Types
pub mod Order
pub mod Canonical
mod Tests
