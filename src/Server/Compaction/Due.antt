-- ===== src/Server/Compaction/Due.antt =====
-- When an automatic compaction is due, and what it leaves of the log.
use rstmdb.Base.{
  ℕ, ◌≤◌, ◌≡◌, refl, String, some, List, string_key, nat_key, inl, inr, Option-cases, Option, none,
  [], ◌∷◌, ◌+◌, length, All,
}
use rstmdb.Base.Dict.{Dict, get}
use rstmdb.Core.Instance.{Instance}
use rstmdb.Wal.Offset.{segment_id}
use rstmdb.Wal.Segment.{File, Segment}
use rstmdb.Wal.Log.{Wal}
use rstmdb.Storage.Snapshot.{SnapshotStore, SnapshotMeta, SnapshotLibraries, min_wal_offset}
use rstmdb.Storage.Store.Compacts.{SameSegment, compact_before-SameSegment}
use rstmdb.Server.Compaction.{CompactionManager, compact_wal, run_compaction}

module _ {N : Type 0} (libraries : SnapshotLibraries N) where
  compact_wal-SameSegment :
      (store : SnapshotStore) (w : Wal) (i : String) (j : ℕ) {m : SnapshotMeta}
      → get store.index i ≡ some m
      → segment_id m.wal_offset ≤ j
      → SameSegment j w (compact_wal libraries store w).1
  unfolding compact_wal
  compact_wal-SameSegment store w i j e h = elim (Option-cases (min_wal_offset store)) [
    | inl p ↦ rw (p, compact_wal) (refl, refl)
    | inr (n, p) ↦ rw (p, compact_wal) (compact_before-SameSegment store w i j n e h p)
  ]

  -- A run of the automatic compaction keeps every segment of the log, with its file, from that of
  -- any snapshot in the index after it on.
  pub run_compaction-SameSegment :
      (new_id : String → String) (now instant : ℕ) (instances : List (Instance N))
      (s : CompactionManager) (i : String) (j : ℕ) {m : SnapshotMeta}
      → get (run_compaction libraries new_id now instant instances s).1.store.index i ≡ some m
      → segment_id m.wal_offset ≤ j
      → SameSegment j s.wal (run_compaction libraries new_id now instant instances s).1.wal
  unfolding run_compaction
  run_compaction-SameSegment new_id now instant instances s i j e h =
      compact_wal-SameSegment _ s.wal i j e h

file_length : Option File → ℕ
file_length none = 0
file_length (some f) = length f.bytes

-- The bytes of the files of these segments.
unfoldable pub bytes_of : Dict ℕ File → Dict ℕ Segment → ℕ
unfolding file_length
bytes_of files [] = 0
bytes_of files ((id, s) ∷ segments) = file_length (get files id) + bytes_of files segments

-- Each segment of the log remembers the size of its file.
abbrev pub IsSized : Dict ℕ File → Dict ℕ Segment → Type 0
IsSized files segments =
    All (λ (e : ℕ × Segment). (f : File) × (get files e.0 ≡ some f) × (e.1.size ≡ length f.bytes))
      segments
