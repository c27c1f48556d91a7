-- ===== src/Chunk.antt =====
-- chunk.py: the content-addressed transport of large payloads.
pub mod Manifest
pub mod Size
pub mod Build
pub mod Transfer
pub mod Reconstruct
