-- ===== src/Examples/Logs.antt =====
-- Offsets, and a log that was just opened on an empty directory.
use rstmdb.Base.{
  nat_key, ℕ, ◌+◌, ◌*◌, ◌^◌, ◌<◌, ◌≡◌, ◌↔◌, ◌⊎◌, refl, arith, some, none, List, [], ◌∷◌, false,
}
use rstmdb.Base.Dict.{get}
use rstmdb.Base.Result.{ok}
use rstmdb.Wal.Record.{layout, new_record}
use rstmdb.Wal.Record
use rstmdb.Wal.Segment
use rstmdb.Wal.Entry.{WalEntry, entry_type}
use rstmdb.Wal.Offset.{new, segment_id}
use rstmdb.Wal.Offset.Laws.{new-order}
use rstmdb.Wal.Log.{Wal, LogLibraries, append_entry, FsyncPolicy, needs_sync}
use rstmdb.Wal.Log.{compact_before}
use rstmdb.Wal.Log.Compaction.{compact_before-gone}
use rstmdb.Wal.Log.Append.{OnDisk, append_entry-OnDisk}

abbrev three : ℕ
three = 3

abbrev one : ℕ
one = 1

third : new 3 70 ≡ ok (3 * 2 ^ 40 + 70)
unfolding new
third = refl

fourth : new 4 2 ≡ ok (4 * 2 ^ 40 + 2)
unfolding new
fourth = refl

new-order_example : (3 * 2 ^ 40 + 70 < 4 * 2 ^ 40 + 2) ↔ ((3 < 4) ⊎ ((three ≡ 4) × (70 < 2)))
new-order_example =
    new-order 3 70 (3 * 2 ^ 40 + 70) 4 2 (4 * 2 ^ 40 + 2) (omega arith) (omega arith) third fourth

-- The JSON of every entry is `{}`.
abbrev pub log_libraries : LogLibraries ℕ
log_libraries = record {
  crc32c = λ bytes. 7;
  to_vec = λ e. some (123 ∷ 125 ∷ []);
  from_slice = λ bytes. none;
  reads = λ bytes. bytes ∷ [];
}

abbrev pub opened : Wal
opened = record {
  segment_size = 1000;
  fsync_policy = FsyncPolicy.every_write;
  files = (1, record { bytes = []; synced = 0 }) ∷ [];
  unlinked = none;
  segments = (1, record { id = 1; size = 0; max_size = 1000; sync_pending = false }) ∷ [];
  current_segment = some (record { id = 1; size = 0; max_size = 1000; sync_pending = false });
  next_sequence = 1;
  writes_since_sync = 0;
  is_closed = false;
  stats = record { bytes_written = 0; bytes_read = 0; writes = 0; reads = 0; fsyncs = 0 };
}

first_entry : (append_entry log_libraries (WalEntry.checkpoint 5) opened).0 ≡ ok (1, 2 ^ 40)
unfolding append_entry Segment.can_fit Record.disk_size new_record get Segment.append Record.encode
    new
first_entry = refl

append_entry-OnDisk_example :
    (payload : List ℕ) × (log_libraries.to_vec (WalEntry.checkpoint 5) ≡ some payload)
    × (one ≡ opened.next_sequence)
    × OnDisk
        (layout
          (new_record log_libraries.crc32c (entry_type {N = ℕ} (WalEntry.checkpoint 5)) 1 payload))
        (append_entry log_libraries (WalEntry.checkpoint 5) opened).1
unfolding needs_sync
append_entry-OnDisk_example =
    append_entry-OnDisk log_libraries (WalEntry.checkpoint 5) opened 1 (2 ^ 40) refl first_entry

abbrev pub two_segments : Wal
two_segments = record opened {
  files = (1, record { bytes = []; synced = 0 }) ∷ (2, record { bytes = []; synced = 0 }) ∷ [];
  segments =
      (1, record { id = 1; size = 0; max_size = 1000; sync_pending = false })
      ∷ (2, record { id = 2; size = 0; max_size = 1000; sync_pending = false })
      ∷ [];
}

compact_before-gone_example :
    (get (compact_before (2 * 2 ^ 40 + 9) two_segments).1.segments 1 ≡ none)
    × ((get two_segments.segments 1 ≡ none)
        ⊎ (get (compact_before (2 * 2 ^ 40 + 9) two_segments).1.files 1 ≡ none))
unfolding segment_id
compact_before-gone_example = compact_before-gone (2 * 2 ^ 40 + 9) two_segments 1 (omega arith)
