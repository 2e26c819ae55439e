-- ===== src/Wal/Log/Read.antt =====
-- rstmdb-wal/src/wal.rs: the log is opened from its directory, and read.
use rstmdb.Base.{
  ℕ, ◌+◌, ◌-◌, ◌%◌, ◌^◌, false, Option, none, some, List, [], ◌∷◌, ◌++◌, ltb, eqb, max,
  if◌then◌else◌, nat_key,
}
use rstmdb.Base.Dict.{Dict, get}
use rstmdb.Base.Result.{Result, ok, err}
use rstmdb.Base.Exec.{pure, raise}
use rstmdb.Wal.Record.{WalRecord, WalError, io, json, disk_size}
use rstmdb.Wal.Segment.{File, Segment, open_segment, read_all}
use rstmdb.Wal.Entry.{WalEntry, Fault, Logged, entry_type}
use rstmdb.Wal.Entry
use rstmdb.Wal.Offset
use rstmdb.Wal.Log.{Wal, Call, LogLibraries, FsyncPolicy, insert_sorted, rotate_segment}

module _ {N : Type 0} (libraries : LogLibraries N) where
  open libraries use {crc32c, from_slice, reads}

  -- The variables of the loops of `read_from`.
  pub record Reading : Type 0 where
    pub results : List (Logged N)
    pub remaining : ℕ
    pub bytes : ℕ

  -- The inner loop, over the records of one segment.
  unfoldable pub take_records : ℕ → ℕ → List (ℕ × WalRecord) → Reading → Result Fault Reading
  take_records id from [] r = ok r
  take_records id from ((offset, rec) ∷ recs) r =
      let skipped = take_records id from recs r in
      elim (Offset.new id offset) [
        | err x ↦ err x
        | ok at ↦ if ltb at from then skipped else elim (from_slice rec.payload) [
          | none ↦ err (Entry.error json)
          | some entry ↦
              let r' : Reading = record {
                results = r.results ++ ((rec.header.sequence, at, entry) ∷ []);
                remaining = r.remaining - 1;
                bytes = r.bytes + disk_size rec;
              } in
              let more = take_records id from recs r' in if eqb r'.remaining 0 then ok r' else more
        ]
      ]

  of_read : {A : Type 0} → Result WalError A → Result Fault A
  of_read (ok a) = ok a
  of_read (err e) = err (Entry.error e)

  read_file : Option File → Result Fault (List (ℕ × WalRecord))
  unfolding of_read
  read_file none = err (Entry.error io)
  read_file (some f) = of_read (read_all crc32c (reads f.bytes))

  -- The outer loop, over the segments from that of `from` on.
  unfoldable pub read_segments : ℕ → Dict ℕ File → Dict ℕ Segment → Reading → Result Fault Reading
  unfolding take_records read_file
  read_segments from files [] r = ok r
  read_segments from files ((id, s) ∷ segments) r =
      let next = read_segments from files segments in
      if ltb id (Offset.segment_id from)
      then next r
      else if eqb r.remaining 0
      then ok r
      else elim (read_file (get files id)) [
        | err x ↦ err x
        | ok records ↦ elim (take_records id from records r) [ err x ↦ err x | ok r' ↦ next r' ]
      ]

  limit_or_max : Option ℕ → ℕ
  limit_or_max none = 2 ^ 64 - 1
  limit_or_max (some limit) = limit

  unfoldable pub read_from : ℕ → Option ℕ → Call (List (Logged N))
  unfolding read_segments limit_or_max
  read_from from limit w =
      elim (read_segments from w.files w.segments
        (record { results = []; remaining = limit_or_max limit; bytes = 0 })) [
          | err x ↦ raise x w
          | ok r ↦ pure r.results (record w {
            stats = record w.stats {
              bytes_read = (w.stats.bytes_read + r.bytes) % 2 ^ 64;
              reads = (w.stats.reads + 1) % 2 ^ 64;
            };
          })
        ]

  -- The highest sequence number of the records of a segment, and of what was seen before.
  unfoldable pub max_sequence : ℕ → List (ℕ × WalRecord) → ℕ
  max_sequence m [] = m
  max_sequence m ((offset, r) ∷ recs) = max_sequence (max m r.header.sequence) recs

  -- The loop of `recover` over the files of the directory, by their ids.
  unfoldable pub open_segments :
      ℕ → Dict ℕ File → ℕ × Dict ℕ Segment → Result Fault (ℕ × Dict ℕ Segment)
  unfolding max_sequence read_file
  open_segments size [] found = ok found
  open_segments size ((id, f) ∷ files) (m, segments) = elim (read_file (some f)) [
    | err x ↦ err x
    | ok records ↦
        open_segments size files
          (max_sequence m records, insert_sorted segments id (open_segment f id size))
  ]

  -- `list_segments(..).last()`
  unfoldable pub last_file : Dict ℕ File → Option (ℕ × File)
  last_file [] = none
  last_file (e ∷ []) = some e
  last_file (e ∷ (e' ∷ files)) = last_file (e' ∷ files)

  new_wal : ℕ → FsyncPolicy → Dict ℕ File → Wal
  new_wal size policy files = record {
    segment_size = size;
    fsync_policy = policy;
    files = files;
    unlinked = none;
    segments = [];
    current_segment = none;
    next_sequence = 1;
    writes_since_sync = 0;
    is_closed = false;
    stats = record { bytes_written = 0; bytes_read = 0; writes = 0; reads = 0; fsyncs = 0 };
  }

  -- `recover`
  unfoldable pub recover : Call (Unit {0})
  unfolding open_segments last_file rotate_segment
  recover w = elim (last_file w.files) [
    | none ↦ rotate_segment w
    | some e ↦ elim (open_segments w.segment_size w.files (0, [])) [
      | err x ↦ raise x w
      | ok found ↦ pure tt (record w {
        segments = found.1;
        next_sequence = (found.0 + 1) % 2 ^ 64;
        current_segment = some (open_segment e.1 e.0 w.segment_size);
      })
    ]
  ]

  -- `Wal::open`
  unfoldable pub open_wal : ℕ → FsyncPolicy → Dict ℕ File → Result Fault Wal
  unfolding new_wal recover
  open_wal size policy files =
      let (r, w) = recover (new_wal size policy files) in elim r [ err x ↦ err x | ok u ↦ ok w ]
