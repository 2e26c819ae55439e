-- ===== src/Wal/Record/RoundTrip.antt =====
-- What `decode` does with the bytes that `encode` wrote, whole or cut short.
use native.Mathlib.Decide.{dec_lt}
use rstmdb.Base.{
  ℕ, ◌-◌, suc, length-take, length-drop, Bool, true, false, not, ltb, if◌then◌else◌, ◌≡◌, refl,
  List, [], ◌∷◌, ◌++◌, arith, Option, some, none, ◌<◌, ◌≤◌, ◌^◌, length, ◌+◌, take, drop,
  take-append, drop-append, length-append,
}
use rstmdb.Base.Bytes.{from_be, from_be-put_be, bytes_eq, byte, slice}
use rstmdb.Base.Result.{Result, ok, err}
use rstmdb.Wal.Record.{
  WalRecord, WalEntryType, layout, decode, decode_typed, decode_payload, entry_type_code, try_from,
  max_record_size, record_header_size, disk_size, WalError, record_too_large, invalid_header,
  invalid_magic, wal_magic,
}

pub record IsValid (crc : List ℕ → ℕ) (r : WalRecord) : Type 0 where
  pub flags_byte : r.header.flags < 256
  pub len : r.header.payload_len ≡ length r.payload
  pub len_max : length r.payload ≤ max_record_size
  pub checksum : r.header.crc32c ≡ crc r.payload
  pub crc_word : r.header.crc32c < 2 ^ 32
  pub sequence_word : r.header.sequence < 2 ^ 64

try_from-code : (t : WalEntryType) → try_from (from_be (entry_type_code t ∷ [])) ≡ ok t
unfolding try_from entry_type_code from_be
try_from-code WalEntryType.put_machine = refl
try_from-code WalEntryType.create_instance = refl
try_from-code WalEntryType.apply_event = refl
try_from-code WalEntryType.delete_instance = refl
try_from-code WalEntryType.snapshot = refl
try_from-code WalEntryType.checkpoint = refl
try_from-code WalEntryType.noop = refl

abbrev Attempt : Type 0
Attempt = Result WalError (Option WalRecord) × List ℕ

module _ (crc : List ℕ → ℕ) where
  body :
      (r : WalRecord) (rest : List ℕ) (offset : ℕ)
      → IsValid crc r
      → decode_payload crc r.header.entry_type r.header.flags
          (length r.payload)
          r.header.crc32c
          r.header.sequence
          (r.payload ++ rest)
          offset
        ≡ (ok (some r), rest)
  unfolding decode_payload
  body r rest offset v = rw (take-append, drop-append) (ground arith)

  from_be-one : (b : ℕ) → from_be (b ∷ []) ≡ b
  unfolding from_be
  from_be-one b = omega arith

  typed :
      (r : WalRecord) (rest : List ℕ) (offset : ℕ)
      → IsValid crc r
      → decode_typed crc (ok r.header.entry_type) (layout r ++ rest) offset ≡ (ok (some r), rest)
  unfolding decode_typed layout
  typed r rest offset v = ground (
    arith,
    from_be-put_be 4 (length r.payload),
    from_be-put_be 4 r.header.crc32c,
    from_be-put_be 8 r.header.sequence,
    from_be-one r.header.flags,
    body r rest offset v,
    length-append r.payload rest,
  )

  -- The bytes of a valid record, with anything behind them, are decoded to the record at any
  -- offset, and the bytes behind are left.
  pub decode-layout :
      (r : WalRecord) (rest : List ℕ) (offset : ℕ)
      → IsValid crc r
      → decode crc (layout r ++ rest) offset ≡ (ok (some r), rest)
  unfolding decode layout
  decode-layout r rest offset v =
      ground (arith, try_from-code r.header.entry_type, typed r rest offset v)

  pub decode_short :
      (buf : List ℕ) (offset : ℕ)
      → length buf < record_header_size
      → decode crc buf offset ≡ (ok none, buf)
  unfolding decode
  decode_short buf offset h = ground arith

  -- 24 bytes and `m` of the payload.
  cut_typed :
      (r : WalRecord) (m offset : ℕ)
      → IsValid crc r
      → m < length r.payload
      → decode_typed crc (ok r.header.entry_type) (take (24 + m) (layout r)) offset
        ≡ (ok none, take (24 + m) (layout r))
  unfolding decode_typed layout
  cut_typed r m offset v h =
      let e : 24 + m
          ≡ suc (
              suc (
                suc (
                  suc (
                    suc (
                      suc (
                        suc (
                          suc (
                            suc (
                              suc (
                                suc (
                                  suc (
                                    suc (
                                      suc (
                                        suc (
                                          suc (
                                            suc (
                                              suc (
                                                suc (
                                                  suc (suc (suc (suc (suc m))))))))))))))))))))))) =
        omega arith in
      rw e (ground (arith, from_be-put_be 4 (length r.payload), length-take m r.payload))

  cut_payload :
      (r : WalRecord) (m offset : ℕ)
      → IsValid crc r
      → m < length r.payload
      → decode crc (take (24 + m) (layout r)) offset ≡ (ok none, take (24 + m) (layout r))
  unfolding decode layout
  cut_payload r m offset v h =
      let e : 24 + m
          ≡ suc (
              suc (
                suc (
                  suc (
                    suc (
                      suc (
                        suc (
                          suc (
                            suc (
                              suc (
                                suc (
                                  suc (
                                    suc (
                                      suc (
                                        suc (
                                          suc (
                                            suc (
                                              suc (
                                                suc (
                                                  suc (suc (suc (suc (suc m))))))))))))))))))))))) =
        omega arith in
      rw e (ground (arith, try_from-code r.header.entry_type, rw e at (cut_typed r m offset v h)))

  pub length-layout : (r : WalRecord) → length (layout r) ≡ disk_size r
  unfolding layout disk_size
  length-layout r = omega arith

  -- A valid record that is cut short anywhere gives no record and no error, and nothing of the
  -- buffer is consumed.
  pub decode-take :
      (r : WalRecord) (n offset : ℕ)
      → IsValid crc r
      → n < disk_size r
      → decode crc (take n (layout r)) offset ≡ (ok none, take n (layout r))
  unfolding disk_size
  decode-take r n offset v h = elim (dec_lt n 24) [
    | yes p ↦ decode_short (take n (layout r)) offset (omega (arith, length-take n (layout r)))
    | no p ↦
        let e : n ≡ 24 + (n - 24) = omega arith in
        rw e (cut_payload r (n - 24) offset v (omega arith))
  ]

  pub record Accepted (buf : List ℕ) (r : WalRecord) (rest : List ℕ) : Type 0 where
    pub consumed : length buf ≡ disk_size r + length rest
    pub len : r.header.payload_len ≡ length r.payload
    pub len_max : length r.payload ≤ max_record_size
    pub checksum : r.header.crc32c ≡ crc r.payload

  -- A result with a record comes from the branch that reads it.
  past_none :
      (b : Bool) (buf : List ℕ) (y : Attempt) {r : WalRecord} {rest : List ℕ}
      → (if b then (ok none, buf) else y) ≡ (ok (some r), rest)
      → (b ≡ false) × (y ≡ (ok (some r), rest))
  past_none true buf y h = cc
  past_none false buf y h = (refl, h)

  past_err :
      (b : Bool) (e : WalError) (buf : List ℕ) (y : Attempt) {r : WalRecord} {rest : List ℕ}
      → (if b then (err e, buf) else y) ≡ (ok (some r), rest)
      → (b ≡ false) × (y ≡ (ok (some r), rest))
  past_err true e buf y h = cc
  past_err false e buf y h = (refl, h)

  past_magic :
      (b c : Bool) (e : WalError) (buf : List ℕ) (y : Attempt) {r : WalRecord} {rest : List ℕ}
      → (if b then (if c then (ok none, buf) else (err e, buf)) else y) ≡ (ok (some r), rest)
      → y ≡ (ok (some r), rest)
  past_magic true true e buf y h = cc
  past_magic true false e buf y h = cc
  past_magic false c e buf y h = h

  typed-Accepted :
      (t : Result WalError WalEntryType) (buf : List ℕ) (offset : ℕ) {r : WalRecord} {rest : List ℕ}
      → record_header_size ≤ length buf
      → decode_typed crc t buf offset ≡ (ok (some r), rest)
      → Accepted buf r rest
  unfolding decode_typed disk_size
  typed-Accepted (err e) buf offset s h = cc
  typed-Accepted (ok t) buf offset s h =
      let n : ℕ = from_be (slice 8 4 buf) in
      let (_, h') = past_err (ltb max_record_size n) (record_too_large n max_record_size) buf _ h in
      let (_, h'') = past_none (ltb (length buf) (24 + n)) buf _ h' in
      ground
        (arith, h'', length-take n (drop 24 buf), length-drop n (drop 24 buf), length-drop 24 buf)

  -- A record that `decode` returns, from any bytes, is what was consumed of the buffer: its size is
  -- the number of bytes gone, its length field is that of its payload, within the limit, and its
  -- checksum is that of the payload.
  pub decode-Accepted :
      (buf : List ℕ) (offset : ℕ) {r : WalRecord} {rest : List ℕ}
      → decode crc buf offset ≡ (ok (some r), rest)
      → Accepted buf r rest
  unfolding decode
  decode-Accepted buf offset h =
      let (long, h') = past_none (ltb (length buf) 24) buf _ h in
      let magic = slice 0 4 buf in
      let h'' =
        past_magic (not (bytes_eq magic wal_magic)) (bytes_eq magic (0 ∷ 0 ∷ 0 ∷ 0 ∷ []))
          (invalid_header offset (invalid_magic magic)) buf _ h' in
      typed-Accepted (try_from (byte 4 buf)) buf offset (ground arith) h''
