-- ===== src/Wal/Log.antt =====
-- rstmdb-wal/src/wal.rs: the log over its segments. The directory is a map from segment ids to
-- files. Disk operations succeed, except where the state of the directory makes them fail. Atomic
-- counters are plain numbers: one call runs at a time.
pub mod Read
pub mod Append
pub mod Compaction
pub mod Ops
use rstmdb.Base.{
  ℕ, zero, suc, ◌+◌, ◌-◌, ◌*◌, ◌/◌, ◌%◌, ◌^◌, Bool, true, false, not, ◌&&◌, Option, none, some,
  List, [], ◌∷◌, ◌++◌, ltb, leb, eqb, max, if◌then◌else◌, length, is_empty, nat_key,
}
use rstmdb.Base.Dict.{Dict, get, insert, remove, contains}
use rstmdb.Base.Result.{Result, ok, err}
use rstmdb.Base.Exec.{Exec, ◌>>=◌, ◌>>◌, pure, raise, lift, gets, modify}
use rstmdb.Wal.Record.{WalRecord, WalError, io, closed, json, new_record, disk_size}
use rstmdb.Wal.Segment.{File, Segment, create, open_segment, can_fit, append, sync, read_all}
use rstmdb.Wal.Entry.{WalEntry, Fault, Logged, entry_type}
use rstmdb.Wal.Entry
use rstmdb.Wal.Offset

pub data FsyncPolicy : Type 0 where
  every_write never : FsyncPolicy
  every_n every_ms : ℕ → FsyncPolicy

-- What the log takes from outside: the checksum, the JSON of an entry, and how `read` cuts a file.
pub record LogLibraries (N : Type 0) : Type 0 where
  pub crc32c : List ℕ → ℕ
  pub to_vec : WalEntry N → Option (List ℕ)
  pub from_slice : List ℕ → Option (WalEntry N)
  pub reads : List ℕ → List (List ℕ)

pub record WalStats : Type 0 where
  pub bytes_written : ℕ
  pub bytes_read : ℕ
  pub writes : ℕ
  pub reads : ℕ
  pub fsyncs : ℕ

pub record Wal : Type 0 where
  pub segment_size : ℕ
  pub fsync_policy : FsyncPolicy
  pub files : Dict ℕ File
  pub unlinked : Option File
  pub segments : Dict ℕ Segment
  pub current_segment : Option Segment
  pub next_sequence : ℕ
  pub writes_since_sync : ℕ
  pub is_closed : Bool
  pub stats : WalStats

abbrev pub Call : Type 0 → Type 0
Call A = Exec Wal Fault A

abbrev pub fail : {A : Type 0} → WalError → Call A
fail e = raise (Entry.error e)

-- `BTreeMap::insert`: the entries stay in the order of their keys.
unfoldable pub insert_sorted : {V : Type 0} → Dict ℕ V → ℕ → V → Dict ℕ V
insert_sorted [] k v = (k, v) ∷ []
insert_sorted ((j, w) ∷ d) k v =
    let rest = insert_sorted d k v in
    if eqb j k then (k, v) ∷ d else if ltb k j then (k, v) ∷ (j, w) ∷ d else (j, w) ∷ rest

-- `keys().next_back().map(|id| id + 1).unwrap_or(1)`
unfoldable pub next_id : {V : Type 0} → Dict ℕ V → ℕ
next_id [] = 1
next_id ((j, w) ∷ []) = j + 1
next_id ((j, w) ∷ (e ∷ d)) = next_id (e ∷ d)

-- `rotate_segment`: `create_new` fails if the file is there.
unfoldable pub rotate_segment : Call (Unit {0})
unfolding create open_segment
rotate_segment w =
    let id = next_id w.segments in
    let (segment, file) = create id w.segment_size in
    if contains w.files id
    then fail io w
    else pure tt (record w {
      files = insert_sorted w.files id file;
      unlinked = none;
      segments = insert_sorted w.segments id (open_segment file id w.segment_size);
      current_segment = some segment;
    })

-- The file behind the open handle of the current segment: deleted, it is still written to.
unfoldable pub current_file : Segment → Wal → Option File
current_file s w = elim w.unlinked [ none ↦ get w.files s.id | some f ↦ some f ]

unfoldable pub put_current : Segment → File → Wal → Wal
put_current s f w = elim w.unlinked [
  | none ↦ record w { files = insert w.files s.id f; current_segment = some s }
  | some g ↦ record w { unlinked = some f; current_segment = some s }
]

unfoldable pub fits_current : Wal → ℕ → Bool
fits_current w size = elim w.current_segment [ none ↦ false | some s ↦ can_fit s size ]

-- The fsync of `append`, by the policy, after `writes` writes without one.
unfoldable pub needs_sync : FsyncPolicy → ℕ → Bool
needs_sync every_write writes = true
needs_sync (every_n n) writes = leb n writes
needs_sync _ writes = false

abbrev pub count_write : WalStats → ℕ → WalStats
count_write s size = record s {
  bytes_written = (s.bytes_written + size) % 2 ^ 64;
  writes = (s.writes + 1) % 2 ^ 64;
}

abbrev pub count_fsync : WalStats → WalStats
count_fsync s = record s { fsyncs = (s.fsyncs + 1) % 2 ^ 64 }

-- What `append` does once the record is in the file `f` of the segment `s`.
unfoldable pub finish_append : Segment → File → ℕ → Wal → Wal
unfolding put_current
finish_append s f size w =
    let writes = w.writes_since_sync + 1 in
    let stats = count_write w.stats size in
    let (s', f') = sync s f in
    if needs_sync w.fsync_policy writes
    then record (put_current s' f' w) { writes_since_sync = 0; stats = count_fsync stats }
    else record (put_current s f w) { writes_since_sync = writes; stats = stats }

-- The write to the current segment
unfoldable pub write_record : WalRecord → Segment → Call (ℕ × ℕ)
unfolding finish_append current_file
write_record r s w = elim (current_file s w) [
  | none ↦ fail io w
  | some f ↦ elim (append s f r) [
    | err e ↦ fail e w
    | ok (offset, s', f') ↦
        (modify (finish_append s' f' (disk_size r)) >> lift (Offset.new s.id offset) >>= λ at.
        pure (r.header.sequence, at))
          w
  ]
]

write_current : WalRecord → Call (ℕ × ℕ)
unfolding write_record
write_current r w = elim w.current_segment [ none ↦ fail io w | some s ↦ write_record r s w ]

-- `append` past the serialization
unfoldable pub append_record : WalRecord → Call (ℕ × ℕ)
unfolding write_current rotate_segment fits_current
append_record r w =
    if fits_current w (disk_size r)
    then write_current r w
    else (rotate_segment >> write_current r) w

-- `sync`
unfoldable pub sync_log : Call (Unit {0})
unfolding current_file put_current
sync_log w = elim w.current_segment [
  | none ↦ pure tt (record w { writes_since_sync = 0 })
  | some s ↦ elim (current_file s w) [
    | none ↦ fail io w
    | some f ↦
        let (s', f') = sync s f in
        pure tt
          (record (put_current s' f' w) { writes_since_sync = 0; stats = count_fsync w.stats })
  ]
]

unfoldable pub close : Call (Unit {0})
unfolding sync_log
close = modify (λ w. record w { is_closed = true }) >> sync_log

unfoldable pub earliest_offset : Wal → Option (Result Fault ℕ)
earliest_offset w = elim w.segments [ [] ↦ none | e ∷ rest ↦ some (Offset.new e.0 0) ]

unfoldable pub latest_offset : Wal → Option (Result Fault ℕ)
latest_offset w = elim w.current_segment [ none ↦ none | some s ↦ some (Offset.new s.id s.size) ]

-- A deleted file stays behind the handle of the current segment if it is its file.
unfoldable pub keep_open : ℕ → Wal → Option File
keep_open id w = elim w.unlinked [
  | some f ↦ some f
  | none ↦ elim w.current_segment [
    | none ↦ none
    | some s ↦ if eqb s.id id then get w.files id else none
  ]
]

-- The loop of `compact_before` over the segments to delete, with the number deleted.
unfoldable pub delete_segments : List ℕ → ℕ → Wal → ℕ × Wal
unfolding keep_open
delete_segments [] deleted w = (deleted, w)
delete_segments (id ∷ ids) deleted w =
    delete_segments ids
      (if contains w.segments id && contains w.files id then deleted + 1 else deleted)
      (record w {
        segments = remove w.segments id;
        files = remove w.files id;
        unlinked = keep_open id w;
      })

-- The ids below a bound, in order.
unfoldable pub ids_below : {V : Type 0} → ℕ → Dict ℕ V → List ℕ
ids_below bound [] = []
ids_below bound ((id, v) ∷ d) =
    let rest = ids_below bound d in if ltb id bound then id ∷ rest else rest

unfoldable pub compact_before : ℕ → Wal → ℕ × Wal
unfolding delete_segments ids_below
compact_before before w = delete_segments (ids_below (Offset.segment_id before) w.segments) 0 w

unfoldable pub sum_sizes : Dict ℕ Segment → ℕ
sum_sizes [] = 0
sum_sizes ((id, s) ∷ d) = s.size + sum_sizes d

-- `total_size`: the sizes that the handles in the map remember
unfoldable pub total_size : Wal → ℕ
unfolding sum_sizes
total_size w = elim w.current_segment [
  | none ↦ sum_sizes w.segments
  | some s ↦
      if contains w.segments s.id then sum_sizes w.segments else sum_sizes w.segments + s.size
]

module _ {N : Type 0} (libraries : LogLibraries N) where
  open libraries use {crc32c, to_vec, from_slice, reads}

  -- The sequence number is taken before the record is written.
  unfoldable pub append_entry : WalEntry N → Call (ℕ × ℕ)
  unfolding append_record
  append_entry entry w = if w.is_closed then fail closed w else elim (to_vec entry) [
    | none ↦ fail json w
    | some payload ↦
        append_record (new_record crc32c (entry_type entry) w.next_sequence payload)
          (record w { next_sequence = (w.next_sequence + 1) % 2 ^ 64 })
  ]
