-- ===== src/Wal.antt =====
-- The write-ahead log (rstmdb-wal).
pub mod Record
pub mod Segment
pub mod Entry
pub mod Offset
pub mod Log
pub mod Recovery
