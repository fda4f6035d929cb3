-- ===== src/Segments.antt =====
-- storage/segment.rs: the record codec, the writer, the scan and the recovery of a segment file.
pub mod Codec
pub mod Roundtrip
pub mod Files
pub mod Frames
pub mod Recovery
pub mod Crash
pub mod Budget
pub mod Reads
mod Tests
