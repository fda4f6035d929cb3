-- ===== src/Reassembly/Steps.antt =====
-- The methods of `TcpHalf` as sequences of elementary steps. An invariant is proved once for each
-- step and then holds through every loop and branch of flow/reassembly.rs.
pub mod Relation
pub mod Loops
pub mod Recover
pub mod Insert
pub mod Drain
pub mod Methods
