-- ===== src/Storage/Error.antt =====
-- rstmdb-storage/src/error.rs: the errors of the storage. The error of `serde_json` and that of the
-- operating system carry no detail.
use rstmdb.Base.{ℕ, String}
use rstmdb.Wal.Entry.{Fault}

pub data StorageError : Type 0 where
  io json : StorageError
  snapshot_not_found instance_not_found corruption : String → StorageError
  machine_not_found : String → ℕ → StorageError
  wal : Fault → StorageError
