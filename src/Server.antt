-- ===== src/Server.antt =====
-- The server's sessions and what guards its commands (rstmdb-server).
pub mod Error
pub mod Session
pub mod Auth
pub mod Handler
pub mod Compaction
pub mod Broadcast
pub mod Batch
pub mod Machines
pub mod Connection
pub mod Commands
