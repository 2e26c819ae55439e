-- ===== src/Wal/Segment.antt =====
-- rstmdb-wal/src/segment.rs: one segment file, its handle, and the loop that reads it back.
-- A file is its bytes and how many of them have been synced to the disk. Every `read` of
-- the operating system returns the next bytes of the file, in pieces of its choice: the list of
-- these pieces is the argument of `read_all`.
pub mod ReadAll
use rstmdb.Base.{
  ℕ, zero, suc, ◌+◌, ◌≤◌, Bool, true, false, Option, none, some, List, [], ◌∷◌, ◌++◌, ltb, leb,
  if◌then◌else◌, length, take,
}
use rstmdb.Base.Result.{Result, ok, err, ◌>>=◌}
use rstmdb.Wal.Record.{WalRecord, WalError, encode, decode, disk_size, record_header_size}

pub record File : Type 0 where
  pub bytes : List ℕ
  pub synced : ℕ

-- `Segment`: the handle. The file itself is shared by all handles of one id.
pub record Segment : Type 0 where
  pub id : ℕ
  pub size : ℕ
  pub max_size : ℕ
  pub sync_pending : Bool

-- `Segment::create`
unfoldable pub create : ℕ → ℕ → Segment × File
create id max_size = (
  record { id = id; size = 0; max_size = max_size; sync_pending = false },
  record { bytes = []; synced = 0 },
)

-- `Segment::open`
unfoldable pub open_segment : File → ℕ → ℕ → Segment
open_segment f id max_size = record {
  id = id;
  size = length f.bytes;
  max_size = max_size;
  sync_pending = false;
}

unfoldable pub is_full : Segment → Bool
is_full s = leb s.max_size s.size

unfoldable pub can_fit : Segment → ℕ → Bool
can_fit s record_size = leb (s.size + record_size) s.max_size

-- `append`: the bytes go to the end of the file; the offset is the handle's size.
unfoldable pub append : Segment → File → WalRecord → Result WalError (ℕ × Segment × File)
append s f r = encode r >>= λ encoded. ok (
  s.size,
  record s { size = s.size + length encoded; sync_pending = true },
  record f { bytes = f.bytes ++ encoded },
)

-- `sync`: all bytes reach the disk, if a write is pending
unfoldable pub sync : Segment → File → Segment × File
sync s f =
    if s.sync_pending
    then (record s { sync_pending = false }, record f { synced = length f.bytes })
    else (s, f)

-- `truncate_at`
unfoldable pub truncate_at : Segment → File → ℕ → Segment × File
unfolding sync
truncate_at s f offset =
    sync (record s { size = offset }) (record f { bytes = take offset f.bytes })

-- What the inner loop of `read_all` leaves: the buffer, the offset and the records so far.
pub record Progress : Type 0 where
  pub buf : List ℕ
  pub offset : ℕ
  pub records : List (ℕ × WalRecord)

module _ (crc : List ℕ → ℕ) where
  -- The inner loop, on fuel: each round but the last takes a record out of the buffer.
  unfoldable pub drain : ℕ → Progress → Result WalError Progress
  drain zero p = ok p
  drain (suc fuel) p =
      if ltb (length p.buf) record_header_size
      then ok p
      else (let (outcome, rest) = decode crc p.buf p.offset in
          elim outcome [
            | ok (some r) ↦ drain fuel (record {
              buf = rest;
              offset = p.offset + disk_size r;
              records = p.records ++ ((p.offset, r) ∷ []);
            })
            | ok none ↦ ok (record p { buf = rest })
            | err e ↦ err e
          ])

  -- The outer loop: one round for each piece that `read` returns, until the end of the file.
  unfoldable pub read_loop : List (List ℕ) → Progress → Result WalError Progress
  read_loop [] p = ok p
  read_loop (chunk ∷ chunks) p =
      let buf : List ℕ = p.buf ++ chunk in
      drain (suc (length buf)) (record p { buf = buf }) >>= read_loop chunks

  unfoldable pub read_all : List (List ℕ) → Result WalError (List (ℕ × WalRecord))
  read_all chunks =
      read_loop chunks (record { buf = []; offset = 0; records = [] }) >>= λ p. ok p.records

  -- `read_at`: reads from an offset until one record is whole.
  unfoldable pub read_at_loop : List (List ℕ) → List ℕ → ℕ → Result WalError (Option WalRecord)
  read_at_loop [] buf offset = ok none
  read_at_loop (chunk ∷ chunks) buf offset =
      let (outcome, rest) = decode crc (buf ++ chunk) offset in
      elim outcome [
        | ok (some r) ↦ ok (some r)
        | ok none ↦ read_at_loop chunks rest offset
        | err e ↦ err e
      ]
