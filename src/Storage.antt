-- ===== src/Storage.antt =====
-- The snapshot store, the idempotency index and the unified storage (rstmdb-storage).
pub mod Error
pub mod Snapshot
pub mod Index
pub mod Store
