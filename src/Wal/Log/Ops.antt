-- ===== src/Wal/Log/Ops.antt =====
-- rstmdb-wal/src/wal.rs: the log as the engine sees it.
use rstmdb.Wal.Entry.{WalOps}
use rstmdb.Wal.Log.{Wal, LogLibraries, append_entry}
use rstmdb.Wal.Log.Read.{read_from}

-- The operations of the log that the engine calls.
abbrev pub log_ops : {N : Type 0} → LogLibraries N → WalOps N
log_ops libraries = record {
  Wal = Wal;
  append = λ w entry. append_entry libraries entry w;
  read_from = λ w from limit. read_from libraries from limit w;
}
