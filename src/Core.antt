-- ===== src/Core.antt =====
-- microtensor_subnet/core: transcripts and their commitment.
pub mod Hashing
pub mod Merkle
