-- ===== src/Examples/Recoveries.antt =====
-- Segment files after a crash: one that ends in a record cut short, and one with a corrupted
-- record behind its first: a repair cuts the two whole records behind that one too, since the byte
-- skipped after the corrupted record is the first of the next one, and the zeros in the header of
-- that one then end the scan.
use rstmdb.Base.{
  true, false, ℕ, ◌≡◌, ◌<◌, ◌^◌, refl, arith, some, List, [], ◌∷◌, ◌++◌, take, length, All,
}
use rstmdb.Base.Dict.{Dict}
use rstmdb.Base.Bytes.{byte, from_be}
use rstmdb.Wal.Segment.{open_segment, truncate_at}
use rstmdb.Base.Result.{Result, ok}
use rstmdb.Wal.Record.{WalRecord, WalError, WalEntryType, layout, new_record, disk_size, decode}
use rstmdb.Wal.Record.RoundTrip.{IsValid}
use rstmdb.Wal.Segment.{File}
use rstmdb.Wal.Segment.ReadAll.{Torn-nil, Torn-take}
use rstmdb.Wal.Recovery.{scan, scan_segment, SegmentReport}
use rstmdb.Wal.Recovery.Bounds.{Bounded, scan_segment-Bounded}
use rstmdb.Wal.Recovery.Repair.{
  Stored, Intact, on_disk, repaired, summary, scan-Stored, scan-repaired,
}

abbrev first_byte : List ℕ → ℕ
first_byte bytes = byte 0 bytes

record_of : ℕ → ℕ → WalRecord
unfolding new_record
record_of sequence b = new_record first_byte WalEntryType.noop sequence (b ∷ [])

-- The checksum is 6, the byte of the payload 9.
corrupted : WalRecord
unfolding record_of
corrupted = record (record_of 2 6) { payload = 9 ∷ [] }

damaged : File
unfolding layout record_of corrupted
damaged = record {
  bytes =
      layout (record_of 1 5)
      ++ (layout corrupted ++ (layout (record_of 3 7) ++ layout (record_of 4 8)));
  synced = 100;
}

-- The records found and refused, the bytes cut, the highest sequence number, the bytes left.
repaired_damage : List ℕ
unfolding damaged scan_segment
repaired_damage = elim (scan_segment first_byte 1000 true 1 damaged) [
  | some (ok (report, f)) ↦
      report.valid_records
      ∷ report.invalid_records
      ∷ report.bytes_truncated
      ∷ report.max_sequence
      ∷ length f.bytes
      ∷ []
  | _ ↦ []
]

one_record_left : repaired_damage ≡ 1 ∷ 5 ∷ 75 ∷ 1 ∷ 25 ∷ []
unfolding repaired_damage decode from_be open_segment disk_size truncate_at
one_record_left = refl

record_of-IsValid :
    (sequence b : ℕ) → b < 256 → sequence < 2 ^ 64 → IsValid first_byte (record_of sequence b)
unfolding new_record record_of from_be
record_of-IsValid sequence b h k = record {
  flags_byte = omega arith;
  len = refl;
  len_max = omega arith;
  checksum = refl;
  crc_word = in_word;
  sequence_word = k;
}
  where
    in_word : first_byte (b ∷ []) < 2 ^ 32
    in_word = omega arith

-- Two segments: the first whole, the second with a record cut short behind its record.
abbrev crashed : List Stored
crashed =
    record { id = 1; records = record_of 1 5 ∷ record_of 2 6 ∷ []; tail = []; synced = 50 }
    ∷ record {
      id = 2;
      records = record_of 3 7 ∷ [];
      tail = take 11 (layout (record_of 4 8));
      synced = 25;
    }
    ∷ []

crashed-Intact : All (Intact first_byte) crashed
unfolding record_of new_record disk_size
crashed-Intact = (
  (
    (
      record_of-IsValid 1 5 (omega arith) (omega arith),
      (record_of-IsValid 2 6 (omega arith) (omega arith), tt),
    ),
    Torn-nil first_byte,
  ),
  (
    (
      (record_of-IsValid 3 7 (omega arith) (omega arith), tt),
      Torn-take first_byte (record_of 4 8) 11 (record_of-IsValid 4 8 (omega arith) (omega arith))
          (omega arith),
    ),
    tt,
  ),
)

scan-Stored_example :
    scan first_byte 1000 true (on_disk crashed)
    ≡ some (summary crashed, on_disk (repaired true crashed))
scan-Stored_example = scan-Stored first_byte 1000 true crashed crashed-Intact

scan-repaired_example :
    (files : Dict ℕ File) × (scan first_byte 1000 true (on_disk crashed)
      ≡ some (summary crashed, files))
    × (scan first_byte 1000 false files
        ≡ some (record (summary crashed) { bytes_truncated = 0; segments_recovered = [] }, files))
scan-repaired_example = scan-repaired first_byte 1000 crashed crashed-Intact

scan_segment-Bounded_example :
    (r : Result WalError (SegmentReport × File)) × (scan_segment first_byte 1000 true 1 damaged
      ≡ some r)
    × Bounded damaged true r
scan_segment-Bounded_example = scan_segment-Bounded first_byte 1000 1 true damaged
