-- ===== src/Core.antt =====
-- The state machine core (rstmdb-core).
pub mod Json
pub mod Guard
pub mod Error
pub mod Definition
pub mod Instance
pub mod Engine
