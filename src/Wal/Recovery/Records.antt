-- ===== src/Wal/Recovery/Records.antt =====
-- What the loop of the scan finds in whole records with a record behind them that was cut short.
use rstmdb.Base.{
  ℕ, zero, suc, ◌+◌, ◌≡◌, ◌≤◌, ◌<◌, refl, sym, ap, ◌∙◌, arith, some, none, List, [], ◌∷◌, ◌++◌,
  false, length, length-append, take_all, All, append_assoc, ltb, max,
}
use native.Mathlib.Nat.{add-zero, add_assoc}
use native.Mathlib.Decide.{dec_lt}
use rstmdb.Base.Result.{ok}
use rstmdb.Wal.Record.{WalRecord, decode, layout, disk_size, record_header_size}
use rstmdb.Wal.Record.RoundTrip.{IsValid, decode-layout, length-layout}
use rstmdb.Wal.Segment.ReadAll.{layouts, total, Torn, disk_size-ge}
use rstmdb.Wal.Recovery.{Scan, again, stop, scan_loop, scan_round, after_decode, count_record}

-- The highest sequence number of the records, or the one from before.
abbrev pub max_sequence_from : ℕ → List WalRecord → ℕ
max_sequence_from m [] = m
max_sequence_from m (r ∷ rs) = max_sequence_from (max m r.header.sequence) rs

unfoldable pub found : Scan → List WalRecord → List ℕ → Scan
found s rs tail = record {
  buf = tail;
  offset = s.offset + total rs;
  valid_records = s.valid_records + length rs;
  invalid_records = s.invalid_records;
  max_sequence = max_sequence_from s.max_sequence rs;
  last_valid_offset = s.offset + total rs;
}

pub length-layouts : (crc : List ℕ → ℕ) (rs : List WalRecord) → length (layouts rs) ≡ total rs
length-layouts crc [] = omega arith
length-layouts crc (r ∷ rs) =
    omega (arith, length-append (layout r) (layouts rs), length-layout crc r, length-layouts crc rs)

module _ (crc : List ℕ → ℕ) where
  short_end :
      (fuel : ℕ) (s : Scan)
      → length s.buf < record_header_size
      → scan_loop crc (suc fuel) s ≡ some (ok s)
  unfolding scan_loop
  short_end fuel s h = ground arith

  long_end :
      (fuel : ℕ) (s s' : Scan)
      → record_header_size ≤ length s.buf
      → scan_round crc s ≡ stop (ok s')
      → scan_loop crc (suc fuel) s ≡ some (ok s')
  unfolding scan_loop
  long_end fuel s s' h e =
      let long : ltb (length s.buf) record_header_size ≡ false = ground arith in
      rw (long, scan_loop) (rw e refl)

  one_more :
      (fuel : ℕ) (s s' : Scan)
      → record_header_size ≤ length s.buf
      → scan_round crc s ≡ again s'
      → scan_loop crc (suc fuel) s ≡ scan_loop crc fuel s'
  unfolding scan_loop
  one_more fuel s s' h e =
      let long : ltb (length s.buf) record_header_size ≡ false = ground arith in
      rw (long, scan_loop) (rw e refl)

  scan_round-none :
      (s : Scan) (tail : List ℕ)
      → Torn crc tail
      → s.buf ≡ tail
      → scan_round crc s ≡ stop (ok (record s { buf = tail }))
  unfolding scan_round after_decode
  scan_round-none s tail t e =
      let waits : decode crc s.buf s.offset ≡ (ok none, tail) =
        ap (λ b. decode crc b s.offset) (e ∙ sym (take_all (length tail) tail (omega arith)))
        ∙ t (length tail) s.offset
        ∙ rw (take_all (length tail) tail (omega arith)) refl in
      rw waits refl

  scan_round-some :
      (s : Scan) (r : WalRecord) (rest : List ℕ)
      → decode crc s.buf s.offset ≡ (ok (some r), rest)
      → scan_round crc s ≡ again (count_record r rest s)
  unfolding scan_round after_decode
  scan_round-some s r rest e = rw e refl

  found_nothing :
      (s : Scan) (tail : List ℕ)
      → s.last_valid_offset ≡ s.offset
      → record s { buf = tail } ≡ found s [] tail
  unfolding found
  found_nothing s tail l = rw (l, add-zero s.offset, add-zero s.valid_records) refl

  found_more :
      (s : Scan) (r : WalRecord) (rs : List WalRecord) (tail : List ℕ)
      → found (count_record r (layouts rs ++ tail) s) rs tail ≡ found s (r ∷ rs) tail
  unfolding found count_record
  found_more s r rs tail =
      let one_more_record : s.valid_records + 1 + length rs ≡ s.valid_records + suc (length rs) =
        omega arith in
      rw (one_more_record, add_assoc s.offset (disk_size r) (total rs)) refl

  pub scan_loop-layouts :
      (fuel : ℕ) (s : Scan) (rs : List WalRecord) (tail : List ℕ)
      → length s.buf < fuel
      → All (IsValid crc) rs
      → Torn crc tail
      → s.last_valid_offset ≡ s.offset
      → s.buf ≡ layouts rs ++ tail
      → scan_loop crc fuel s ≡ some (ok (found s rs tail))
  unfolding count_record
  scan_loop-layouts zero s rs tail h v t l e = absurd (omega arith)
  scan_loop-layouts (suc fuel) s [] tail h v t l e =
      elim (dec_lt (length s.buf) record_header_size) [
        | yes short ↦
            short_end fuel s short
            ∙ ap (λ b. some (ok (record s { buf = b }))) e
            ∙ ap (λ s'. some (ok s')) (found_nothing s tail l)
        | no long ↦
            long_end fuel s _ (omega arith) (scan_round-none s tail t e)
            ∙ ap (λ s'. some (ok s')) (found_nothing s tail l)
      ]
  scan_loop-layouts (suc fuel) s (r ∷ rs) tail h v t l e =
      let rest = layouts rs ++ tail in
      let whole : decode crc s.buf s.offset ≡ (ok (some r), rest) =
        ap (λ b. decode crc b s.offset) (e ∙ append_assoc (layout r) (layouts rs) tail)
        ∙ decode-layout crc r rest s.offset v.0 in
      let size : length s.buf ≡ disk_size r + length rest =
        ap length (e ∙ append_assoc (layout r) (layouts rs) tail)
        ∙ length-append (layout r) rest
        ∙ ap (λ n. n + length rest) (length-layout crc r) in
      let later =
        scan_loop-layouts fuel (count_record r rest s) rs tail (omega (arith, size, disk_size-ge r))
          v.1 t refl refl in
      one_more fuel s _ (omega (arith, size, disk_size-ge r)) (scan_round-some s r rest whole)
      ∙ later
      ∙ ap (λ s'. some (ok s')) (found_more s r rs tail)
