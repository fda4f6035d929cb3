-- ===== src/Affinity.antt =====
-- affinity.rs, the layout of worker threads over the CPUs.
pub mod Stages
pub mod Plan
mod Tests
