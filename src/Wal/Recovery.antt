-- ===== src/Wal/Recovery.antt =====
-- rstmdb-wal/src/recovery.rs: the scan of the segment files after a crash, and their repair. The
-- directory is the list of its segment files in the order of their ids, which `list_segments`
-- sorts. The loop runs on fuel: `none` is a run that used it up.
pub mod Bounds
pub mod Records
pub mod Repair
use rstmdb.Base.{
  ℕ, zero, suc, ◌+◌, ◌-◌, Bool, true, false, ◌&&◌, ◌||◌, Option, none, some, List, [], ◌∷◌, ◌++◌,
  ltb, eqb, max, if◌then◌else◌, length, drop, is_empty,
}
use rstmdb.Base.Dict.{Dict}
use rstmdb.Base.Result.{Result, ok, err}
use rstmdb.Wal.Record.{
  WalRecord, WalError, corrupted_record, invalid_header, decode, disk_size, record_header_size,
}
use rstmdb.Wal.Segment.{File, open_segment, truncate_at}

-- The variables of the loop of `scan_segment`.
pub record Scan : Type 0 where
  pub buf : List ℕ
  pub offset : ℕ
  pub valid_records : ℕ
  pub invalid_records : ℕ
  pub max_sequence : ℕ
  pub last_valid_offset : ℕ

-- What `scan_segment` returns.
pub record SegmentReport : Type 0 where
  pub valid_records : ℕ
  pub invalid_records : ℕ
  pub bytes_truncated : ℕ
  pub max_sequence : ℕ

-- The text of an error is the error.
pub record RecoveryResult : Type 0 where
  pub valid_records : ℕ
  pub invalid_records : ℕ
  pub bytes_truncated : ℕ
  pub segments_recovered : List ℕ
  pub segments_with_errors : List (ℕ × WalError)
  pub max_sequence : ℕ

-- How a round of the loop ends: with another round, or with the end of the loop.
pub data Round : Type 0 where
  again : Scan → Round
  stop : Result WalError Scan → Round

unfoldable pub all_zero : List ℕ → Bool
all_zero [] = true
all_zero (b ∷ bs) = eqb b 0 && all_zero bs

-- A whole record
unfoldable pub count_record : WalRecord → List ℕ → Scan → Scan
count_record r rest s = record {
  buf = rest;
  offset = s.offset + disk_size r;
  valid_records = s.valid_records + 1;
  invalid_records = s.invalid_records;
  max_sequence = max s.max_sequence r.header.sequence;
  last_valid_offset = s.offset + disk_size r;
}

-- An error, and one byte skipped
unfoldable pub skip_byte : List ℕ → Scan → Scan
skip_byte [] s = record s { buf = []; invalid_records = s.invalid_records + 1 }
skip_byte (b ∷ rest) s = record s {
  buf = rest;
  offset = s.offset + 1;
  invalid_records = s.invalid_records + 1;
}

unfoldable pub start_scan : List ℕ → Scan
start_scan buf = record {
  buf = buf;
  offset = 0;
  valid_records = 0;
  invalid_records = 0;
  max_sequence = 0;
  last_valid_offset = 0;
}

-- `scan_segment` past the loop
unfoldable pub finish_segment : ℕ → Bool → ℕ → File → Scan → SegmentReport × File
finish_segment segment_size repair id f s =
    let segment = open_segment f id segment_size in
    let bytes_truncated = segment.size - s.last_valid_offset in
    (
      record {
        valid_records = s.valid_records;
        invalid_records = s.invalid_records;
        bytes_truncated = bytes_truncated;
        max_sequence = s.max_sequence;
      },
      if repair && ltb 0 bytes_truncated then (truncate_at segment f s.last_valid_offset).1 else f,
    )

-- One round of the loop of `scan`: the files done come first.
unfoldable pub add_report : ℕ → SegmentReport → RecoveryResult → RecoveryResult
add_report id report result = record {
  valid_records = result.valid_records + report.valid_records;
  invalid_records = result.invalid_records + report.invalid_records;
  bytes_truncated = result.bytes_truncated + report.bytes_truncated;
  segments_recovered =
      if ltb 0 report.invalid_records || ltb 0 report.bytes_truncated
      then result.segments_recovered ++ (id ∷ [])
      else result.segments_recovered;
  segments_with_errors = result.segments_with_errors;
  max_sequence = max result.max_sequence report.max_sequence;
}

unfoldable pub add_error : ℕ → WalError → RecoveryResult → RecoveryResult
add_error id e result = record result {
  segments_with_errors = result.segments_with_errors ++ ((id, e) ∷ []);
}

abbrev pub keep_file :
    ℕ → File → Option (RecoveryResult × Dict ℕ File) → Option (RecoveryResult × Dict ℕ File)
keep_file id f none = none
keep_file id f (some (result, files)) = some (result, (id, f) ∷ files)

-- What the body of the loop does with the outcome of `decode`
unfoldable pub after_decode : Result WalError (Option WalRecord) → List ℕ → Scan → Round
unfolding count_record skip_byte all_zero
after_decode (ok (some r)) rest s = again (count_record r rest s)
after_decode (ok none) rest s = stop (ok (record s { buf = rest }))
after_decode (err (corrupted_record _ _ _)) rest s = again (skip_byte rest s)
after_decode (err (invalid_header _ _)) rest s =
    if all_zero rest then stop (ok (record s { buf = rest })) else again (skip_byte rest s)
after_decode (err e) rest s = stop (err e)

module _ (crc : List ℕ → ℕ) where
  -- The body of the loop
  unfoldable pub scan_round : Scan → Round
  unfolding after_decode
  scan_round s = let (outcome, rest) = decode crc s.buf s.offset in after_decode outcome rest s

  unfoldable pub scan_loop : ℕ → Scan → Option (Result WalError Scan)
  unfolding scan_round
  scan_loop zero s = none
  scan_loop (suc fuel) s = elim (ltb (length s.buf) record_header_size) [
    | true ↦ some (ok s)
    | false ↦ elim (scan_round s) [ again s' ↦ scan_loop fuel s' | stop r ↦ some r ]
  ]

  unfoldable pub scan_segment :
      ℕ → Bool → ℕ → File → Option (Result WalError (SegmentReport × File))
  unfolding scan_loop start_scan finish_segment
  scan_segment segment_size repair id f =
      elim (scan_loop (suc (length f.bytes)) (start_scan f.bytes)) [
        | none ↦ none
        | some (err e) ↦ some (err e)
        | some (ok s) ↦ some (ok (finish_segment segment_size repair id f s))
      ]

  unfoldable pub scan_files :
      ℕ → Bool → Dict ℕ File → RecoveryResult → Option (RecoveryResult × Dict ℕ File)
  unfolding scan_segment add_report add_error
  scan_files segment_size repair [] result = some (result, [])
  scan_files segment_size repair ((id, f) ∷ files) result =
      elim (scan_segment segment_size repair id f) [
        | none ↦ none
        | some (ok (report, f')) ↦
            keep_file id f' (scan_files segment_size repair files (add_report id report result))
        | some (err e) ↦
            keep_file id f (scan_files segment_size repair files (add_error id e result))
      ]

  -- `scan`: `verify_wal` with false, `repair_wal` with true.
  unfoldable pub scan : ℕ → Bool → Dict ℕ File → Option (RecoveryResult × Dict ℕ File)
  unfolding scan_files
  scan segment_size repair files = scan_files segment_size repair files (record {
    valid_records = 0;
    invalid_records = 0;
    bytes_truncated = 0;
    segments_recovered = [];
    segments_with_errors = [];
    max_sequence = 0;
  })
