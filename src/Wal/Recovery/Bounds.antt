-- ===== src/Wal/Recovery/Bounds.antt =====
-- The scan of one segment ends, and it stays within the file.
use rstmdb.Base.{
  ℕ, zero, suc, ◌+◌, ◌-◌, ◌≡◌, ◌≤◌, ◌<◌, refl, arith, some, none, List, [], ◌∷◌, Bool, true, false,
  inl, inr, length, length-drop, take, take_all, drop, Bool-cases, ltb, Option, if◌then◌else◌,
}
use rstmdb.Base.Bytes.{from_be, slice, byte}
use rstmdb.Base.Result.{Result, ok, err}
use rstmdb.Wal.Record.{
  WalRecord, WalError, WalEntryType, decode, decode_typed, decode_payload, try_from,
  record_header_size, corrupted_record, invalid_header, io, record_too_large, segment_not_found,
  offset_too_old, closed, invalid_state, json,
}
use rstmdb.Wal.Record.RoundTrip.{decode-Accepted}
use rstmdb.Wal.Segment.{File, truncate_at, open_segment, sync}
use rstmdb.Wal.Segment.ReadAll.{disk_size-ge}
use rstmdb.Wal.Recovery.{
  Scan, SegmentReport, Round, again, stop, all_zero, after_decode, count_record, skip_byte,
  scan_round, scan_loop, start_scan, finish_segment, scan_segment,
}

-- The file comes back as it was, or cut where the scan says.
abbrev pub Bounded : File → Bool → Result WalError (SegmentReport × File) → Type 0
Bounded f repair (ok (report, f')) =
    (report.bytes_truncated ≤ length f.bytes)
    × (f'.bytes
        ≡ (if repair then take (length f.bytes - report.bytes_truncated) f.bytes else f.bytes))
Bounded f repair (err e) = Unit

finish_segment-Bounded :
    (segment_size id : ℕ) (repair : Bool) (f : File) (s : Scan)
    → s.last_valid_offset ≤ length f.bytes
    → Bounded f repair (ok (finish_segment segment_size repair id f s))
unfolding finish_segment open_segment truncate_at sync
finish_segment-Bounded segment_size id false f s h = (omega arith, refl)
finish_segment-Bounded segment_size id true f s h =
    let n = length f.bytes in
    let cut : n - (n - s.last_valid_offset) ≡ s.last_valid_offset = omega arith in
    ground (arith, cut, take_all s.last_valid_offset f.bytes)

module _ (crc : List ℕ → ℕ) where
  typed-shrinks :
      (t : Result WalError WalEntryType) (buf : List ℕ) (offset : ℕ)
      → length (decode_typed crc t buf offset).1 ≤ length buf
  unfolding decode_typed decode_payload
  typed-shrinks (err e) buf offset = omega arith
  typed-shrinks (ok t) buf offset =
      let n : ℕ = from_be (slice 8 4 buf) in
      ground (arith, length-drop n (drop record_header_size buf), length-drop 24 buf)

  decode-shrinks : (buf : List ℕ) (offset : ℕ) → length (decode crc buf offset).1 ≤ length buf
  unfolding decode
  decode-shrinks buf offset = ground (arith, typed-shrinks (try_from (byte 4 buf)) buf offset)

  -- The offset and the bytes left are within the file, and the records found before the offset.
  abbrev Within : ℕ → Scan → Type 0
  Within size s = (s.offset + length s.buf ≤ size) × (s.last_valid_offset ≤ s.offset)

  abbrev Proceeds : ℕ → ℕ → Round → Type 0
  Proceeds size left (again s) = Within size s × (length s.buf < left)
  Proceeds size left (stop (ok s)) = Within size s
  Proceeds size left (stop (err e)) = Unit

  skip_byte-Within :
      (size : ℕ) (rest : List ℕ) (s : Scan)
      → 0 < length s.buf
      → length rest ≤ length s.buf
      → Within size s
      → Proceeds size (length s.buf) (again (skip_byte rest s))
  unfolding skip_byte
  skip_byte-Within size [] s n l w = ground arith
  skip_byte-Within size (b ∷ rest) s n l w = ground arith

  after_decode-Proceeds :
      (size : ℕ) (s : Scan) (outcome : Result WalError (Option WalRecord)) (rest : List ℕ)
      → record_header_size ≤ length s.buf
      → Within size s
      → decode crc s.buf s.offset ≡ (outcome, rest)
      → length rest ≤ length s.buf
      → Proceeds size (length s.buf) (after_decode outcome rest s)
  unfolding after_decode
  after_decode-Proceeds size s (ok (some r)) rest h w e l =
      ground (arith, (decode-Accepted crc s.buf s.offset e).consumed, disk_size-ge r, count_record)
  after_decode-Proceeds size s (ok none) rest h w e l = ground arith
  after_decode-Proceeds size s (err (corrupted_record _ _ _)) rest h w e l =
      skip_byte-Within size rest s (omega arith) l w
  after_decode-Proceeds size s (err (invalid_header _ _)) rest h w e l =
      elim (Bool-cases (all_zero rest)) [
        | inl p ↦ rw p (ground arith)
        | inr p ↦ rw p (skip_byte-Within size rest s (omega arith) l w)
      ]
  after_decode-Proceeds size s (err io) rest h w e l = tt
  after_decode-Proceeds size s (err (record_too_large _ _)) rest h w e l = tt
  after_decode-Proceeds size s (err (segment_not_found _)) rest h w e l = tt
  after_decode-Proceeds size s (err (offset_too_old _ _)) rest h w e l = tt
  after_decode-Proceeds size s (err closed) rest h w e l = tt
  after_decode-Proceeds size s (err (invalid_state _)) rest h w e l = tt
  after_decode-Proceeds size s (err json) rest h w e l = tt

  scan_round-Proceeds :
      (size : ℕ) (s : Scan)
      → record_header_size ≤ length s.buf
      → Within size s
      → Proceeds size (length s.buf) (scan_round crc s)
  unfolding scan_round
  scan_round-Proceeds size s h w =
      after_decode-Proceeds size s _ _ h w refl (decode-shrinks s.buf s.offset)

  abbrev Ends : ℕ → Result WalError Scan → Type 0
  Ends size (ok s) = s.last_valid_offset ≤ size
  Ends size (err e) = Unit

  scan_loop-Ends :
      (fuel size : ℕ) (s : Scan)
      → length s.buf < fuel
      → Within size s
      → (r : Result WalError Scan) × (scan_loop crc fuel s ≡ some r) × Ends size r
  unfolding scan_loop
  scan_loop-Ends zero size s h w = absurd (omega arith)
  scan_loop-Ends (suc fuel) size s h w = elim (Bool-cases (ltb (length s.buf) record_header_size)) [
    | inl p ↦ (ok s, rw (p, scan_loop) refl, omega (arith, w.0, w.1))
    | inr p ↦
        rw (p, scan_loop)
          (next (scan_loop-Ends fuel size) (scan_round crc s)
            (scan_round-Proceeds size s (ground (arith, p)) w))
  ]
    where
      next :
          ((s' : Scan)
            → length s'.buf < fuel
            → Within size s'
            → (r : Result WalError Scan) × (scan_loop crc fuel s' ≡ some r) × Ends size r)
          → (t : Round) → Proceeds size (length s.buf) t
          → (r : Result WalError Scan) × (elim t [
            | again s' ↦ scan_loop crc fuel s'
            | stop r ↦ some r
          ]
              ≡ some r)
            × Ends size r
      next later (again s') (w', l) = later s' (omega arith) w'
      next later (stop (ok s')) (a, b) = (ok s', refl, omega arith)
      next later (stop (err e)) t = (err e, refl, tt)

  -- The scan of a segment file ends, whatever its bytes are. It never reports more bytes cut than
  -- the file has, and the file that it leaves is the old one, in a repair without these bytes.
  pub scan_segment-Bounded :
      (segment_size id : ℕ) (repair : Bool) (f : File)
      → (r : Result WalError (SegmentReport × File)) × (scan_segment crc segment_size repair id f
          ≡ some r)
        × Bounded f repair r
  unfolding scan_segment start_scan
  scan_segment-Bounded segment_size id repair f =
      let (r, e, b) =
        scan_loop-Ends (suc (length f.bytes)) (length f.bytes) (start_scan f.bytes) (omega arith)
          (omega arith, omega arith) in
      rw (e, scan_segment) (end r b)
    where
      end :
          (t : Result WalError Scan)
          → Ends (length f.bytes) t
          → (r : Result WalError (SegmentReport × File)) × (elim (some t) [
            | none ↦ none
            | some (err e) ↦ some (err e)
            | some (ok s) ↦ some (ok (finish_segment segment_size repair id f s))
          ]
              ≡ some r)
            × Bounded f repair r
      end (ok s) b = (
        ok (finish_segment segment_size repair id f s),
        refl,
        finish_segment-Bounded segment_size id repair f s b,
      )
      end (err e) b = (err e, refl, tt)
