-- ===== src/Examples.antt =====
-- Concrete inputs on which the development is run.
pub mod Bytes
pub mod Machines
pub mod Calls
pub mod Restarts
pub mod Logs
pub mod Sessions
pub mod Guards
pub mod Recoveries
pub mod Snapshots
pub mod Streams
pub mod Commands
pub mod Connections
