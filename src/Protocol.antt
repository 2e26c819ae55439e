-- ===== src/Protocol.antt =====
-- The wire protocol (rstmdb-protocol).
pub mod Frame
pub mod Codec
pub mod Message
