-- ===== src/Wal/Recovery/Repair.antt =====
-- What the scan finds in segments that hold whole records and a record that was cut short, and
-- what a repair leaves of them.
use rstmdb.Base.{
  ℕ, suc, ◌+◌, ◌-◌, ◌≡◌, refl, sym, ap, ◌∙◌, arith, some, List, [], ◌∷◌, ◌++◌, ◌&&◌, Bool, true,
  false, inl, inr, length, length-append, take, take-append, All, append_assoc, append-nil,
  Bool-cases, ltb, max, if◌then◌else◌,
}
use native.Mathlib.Nat.{add-zero, zero-add, add_assoc}
use rstmdb.Base.Dict.{Dict}
use rstmdb.Base.Result.{ok}
use rstmdb.Wal.Record.{WalRecord}
use rstmdb.Wal.Record.RoundTrip.{IsValid}
use rstmdb.Wal.Segment.{File, truncate_at, open_segment, sync}
use rstmdb.Wal.Segment.ReadAll.{layouts, total, Torn, Torn-nil}
use rstmdb.Wal.Recovery.{
  Scan, SegmentReport, RecoveryResult, start_scan, finish_segment, scan_segment, scan_files, scan,
  add_report,
}
use rstmdb.Wal.Recovery.Records.{max_sequence_from, found, length-layouts, scan_loop-layouts}

-- A segment file after a crash: whole records, and behind them a tail that was cut short.
pub record Stored : Type 0 where
  pub id : ℕ
  pub records : List WalRecord
  pub tail : List ℕ
  pub synced : ℕ

abbrev pub Intact : (List ℕ → ℕ) → Stored → Type 0
Intact crc s = All (IsValid crc) s.records × Torn crc s.tail

abbrev pub file : Stored → File
file s = record { bytes = layouts s.records ++ s.tail; synced = s.synced }

abbrev pub on_disk : List Stored → Dict ℕ File
on_disk [] = []
on_disk (s ∷ ss) = (s.id, file s) ∷ on_disk ss

abbrev pub without_tail : Stored → Stored
without_tail s = record s { tail = [] }

abbrev pub settled : Bool → Stored → Stored
settled repair s = record s { tail = if repair then [] else s.tail }

abbrev pub repaired : Bool → List Stored → List Stored
repaired repair [] = []
repaired repair (s ∷ ss) = (settled repair s) ∷ repaired repair ss

-- What a scan should report.
abbrev pub count_records : List Stored → ℕ
count_records [] = 0
count_records (s ∷ ss) = length s.records + count_records ss

abbrev pub tail_bytes : List Stored → ℕ
tail_bytes [] = 0
tail_bytes (s ∷ ss) = length s.tail + tail_bytes ss

abbrev pub torn_ids : List Stored → List ℕ
torn_ids [] = []
torn_ids (s ∷ ss) = let rest = torn_ids ss in if ltb 0 (length s.tail) then s.id ∷ rest else rest

abbrev pub last_sequence : ℕ → List Stored → ℕ
last_sequence m [] = m
last_sequence m (s ∷ ss) = last_sequence (max m (max_sequence_from 0 s.records)) ss

segment_report : Stored → SegmentReport
segment_report s = record {
  valid_records = length s.records;
  invalid_records = 0;
  bytes_truncated = length s.tail;
  max_sequence = max_sequence_from 0 s.records;
}

added : RecoveryResult → List Stored → RecoveryResult
added result ss = record {
  valid_records = result.valid_records + count_records ss;
  invalid_records = result.invalid_records;
  bytes_truncated = result.bytes_truncated + tail_bytes ss;
  segments_recovered = result.segments_recovered ++ torn_ids ss;
  segments_with_errors = result.segments_with_errors;
  max_sequence = last_sequence result.max_sequence ss;
}

abbrev pub summary : List Stored → RecoveryResult
summary ss = record {
  valid_records = count_records ss;
  invalid_records = 0;
  bytes_truncated = tail_bytes ss;
  segments_recovered = torn_ids ss;
  segments_with_errors = [];
  max_sequence = last_sequence 0 ss;
}

module _ (crc : List ℕ → ℕ) where
  found_all : Stored → Scan
  found_all s = record {
    buf = s.tail;
    offset = total s.records;
    valid_records = length s.records;
    invalid_records = 0;
    max_sequence = max_sequence_from 0 s.records;
    last_valid_offset = total s.records;
  }

  found-start_scan : (s : Stored) → found (start_scan (file s).bytes) s.records s.tail ≡ found_all s
  unfolding found start_scan found_all
  found-start_scan s = rw (zero-add (total s.records), zero-add (length s.records)) refl

  empty : (xs : List ℕ) → ltb 0 (length xs) ≡ false → xs ≡ []
  empty [] h = refl
  empty (x ∷ xs) h = absurd (ground (arith, h))

  cut_file :
      (s : Stored)
      → (if ltb 0 (length s.tail)
          then record (file s) { bytes = take (total s.records) (file s).bytes }
          else file s)
        ≡ file (without_tail s)
  cut_file s = elim (Bool-cases (ltb 0 (length s.tail))) [
    | inl p ↦ rw (p, sym (length-layouts crc s.records), take-append, append-nil) refl
    | inr p ↦ rw (p, empty s.tail p) refl
  ]

  finish_segment-Stored :
      (n : ℕ) (repair : Bool) (s : Stored)
      → finish_segment n repair s.id (file s) (found_all s)
        ≡ (segment_report s, file (settled repair s))
  unfolding finish_segment open_segment truncate_at sync found_all segment_report
  finish_segment-Stored n repair s =
      let size : length (layouts s.records ++ s.tail) - total s.records ≡ length s.tail =
        omega (arith, length-append (layouts s.records) s.tail, length-layouts crc s.records) in
      rw size (kept repair)
    where
      kept :
          (repair : Bool)
          → ◌≡◌ {A = SegmentReport × File}
              (
                segment_report s,
                if repair && ltb 0 (length s.tail)
                    then record (file s) { bytes = take (total s.records) (file s).bytes }
                    else file s,
              )
              (segment_report s, file (settled repair s))
      kept false = refl
      kept true = ap (λ f. (segment_report s, f)) (cut_file s)

  scan_segment-Stored :
      (n : ℕ) (repair : Bool) (s : Stored)
      → Intact crc s
      → scan_segment crc n repair s.id (file s)
        ≡ some (ok (segment_report s, file (settled repair s)))
  unfolding scan_segment start_scan
  scan_segment-Stored n repair s h =
      let scanned =
        scan_loop-layouts crc (suc (length (file s).bytes)) (start_scan (file s).bytes) s.records
          s.tail (omega arith) h.0 h.1 refl refl in
      rw (scanned, scan_segment)
        (ap (λ t. some (ok t))
          (ap (finish_segment n repair s.id (file s)) (found-start_scan s)
            ∙ finish_segment-Stored n repair s))

  added-nil : (result : RecoveryResult) → added result [] ≡ result
  unfolding added
  added-nil result =
      rw
        (
          add-zero result.valid_records,
          add-zero result.bytes_truncated,
          append-nil result.segments_recovered,
        )
        refl

  recovered_ids :
      (ids rest : List ℕ) (id : ℕ) (b : Bool)
      → (if b then ids ++ (id ∷ []) else ids) ++ rest ≡ ids ++ (if b then id ∷ rest else rest)
  recovered_ids ids rest id true = append_assoc ids (id ∷ []) rest
  recovered_ids ids rest id false = refl

  added-cons :
      (s : Stored) (ss : List Stored) (result : RecoveryResult)
      → added (add_report s.id (segment_report s) result) ss ≡ added result (s ∷ ss)
  unfolding added segment_report add_report
  added-cons s ss result =
      rw
        (
          add-zero result.invalid_records,
          add_assoc result.valid_records (length s.records) (count_records ss),
          add_assoc result.bytes_truncated (length s.tail) (tail_bytes ss),
          recovered_ids result.segments_recovered (torn_ids ss) s.id (ltb 0 (length s.tail)),
        )
        refl

  scan_files-Stored :
      (n : ℕ) (repair : Bool) (ss : List Stored) (result : RecoveryResult)
      → All (Intact crc) ss
      → scan_files crc n repair (on_disk ss) result
        ≡ some (added result ss, on_disk (repaired repair ss))
  unfolding scan_files
  scan_files-Stored n repair [] result h = ap (λ r. some (r, [])) (sym (added-nil result))
  scan_files-Stored n repair (s ∷ ss) result h =
      rw
        (
          scan_segment-Stored n repair s h.0,
          scan_files-Stored n repair ss (add_report s.id (segment_report s) result) h.1,
          scan_files,
        )
        (ap (λ r. some (r, on_disk (repaired repair (s ∷ ss)))) (added-cons s ss result))

  -- Where each segment file holds valid records and behind them a tail of which no part decodes to
  -- a record or an error, a scan ends, reports the number of the records, their highest sequence
  -- number, the bytes of the tails and the segments that have one, with no invalid record and no
  -- error. A repair leaves just the records, a scan without repair leaves the files as they are.
  pub scan-Stored :
      (n : ℕ) (repair : Bool) (ss : List Stored)
      → All (Intact crc) ss
      → scan crc n repair (on_disk ss) ≡ some (summary ss, on_disk (repaired repair ss))
  unfolding scan added
  scan-Stored n repair ss h =
      scan_files-Stored n repair ss _ h
      ∙ rw (zero-add (count_records ss), zero-add (tail_bytes ss)) refl

  repaired-Intact : (ss : List Stored) → All (Intact crc) ss → All (Intact crc) (repaired true ss)
  repaired-Intact [] h = tt
  repaired-Intact (s ∷ ss) h = ((h.0.0, Torn-nil crc), repaired-Intact ss h.1)

  repaired-again : (ss : List Stored) → repaired false (repaired true ss) ≡ repaired true ss
  repaired-again [] = refl
  repaired-again (s ∷ ss) = ap (◌∷◌ (without_tail s)) (repaired-again ss)

  count_records-repaired : (ss : List Stored) → count_records (repaired true ss) ≡ count_records ss
  count_records-repaired [] = refl
  count_records-repaired (s ∷ ss) = ap (λ n. length s.records + n) (count_records-repaired ss)

  tail_bytes-repaired : (ss : List Stored) → tail_bytes (repaired true ss) ≡ 0
  tail_bytes-repaired [] = refl
  tail_bytes-repaired (s ∷ ss) = omega (arith, tail_bytes-repaired ss)

  torn_ids-repaired : (ss : List Stored) → torn_ids (repaired true ss) ≡ []
  torn_ids-repaired [] = refl
  torn_ids-repaired (s ∷ ss) = torn_ids-repaired ss

  last_sequence-repaired :
      (m : ℕ) (ss : List Stored) → last_sequence m (repaired true ss) ≡ last_sequence m ss
  last_sequence-repaired m [] = refl
  last_sequence-repaired m (s ∷ ss) =
      last_sequence-repaired (max m (max_sequence_from 0 s.records)) ss

  -- After a repair of such segment files, a scan finds the same records and nothing to cut, and
  -- leaves the files as they are.
  pub scan-repaired :
      (n : ℕ) (ss : List Stored)
      → All (Intact crc) ss
      → (files : Dict ℕ File) × (scan crc n true (on_disk ss) ≡ some (summary ss, files))
        × (scan crc n false files
            ≡ some (record (summary ss) { bytes_truncated = 0; segments_recovered = [] }, files))
  scan-repaired n ss h = (
    on_disk (repaired true ss),
    scan-Stored n true ss h,
    scan-Stored n false (repaired true ss) (repaired-Intact ss h)
        ∙ rw
            (
              repaired-again ss,
              count_records-repaired ss,
              tail_bytes-repaired ss,
              torn_ids-repaired ss,
              last_sequence-repaired 0 ss,
            )
            refl,
  )
