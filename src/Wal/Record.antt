-- ===== src/Wal/Record.antt =====
-- rstmdb-wal/src/entry.rs: the record header and its bytes. `crc32c` is the function of the crate
-- of that name, a parameter. A buffer that `decode` consumes is returned beside the result.
pub mod RoundTrip
use rstmdb.Base.{
  ℕ, String, ◌+◌, ◌%◌, ◌^◌, Bool, true, false, not, ◌&&◌, Option, none, some, List, [], ◌∷◌, ◌++◌,
  ltb, eqb, if◌then◌else◌, length, take, drop,
}
use rstmdb.Base.Bytes.{bytes_eq, byte, slice, put_be, from_be}
use rstmdb.Base.Result.{Result, ok, err}

-- `WAL_MAGIC`, "WLOG"
abbrev pub wal_magic : List ℕ
wal_magic = 87 ∷ 76 ∷ 79 ∷ 71 ∷ []

abbrev pub max_record_size : ℕ
max_record_size = 16777216

abbrev pub record_header_size : ℕ
record_header_size = 24

pub data WalEntryType : Type 0 where
  put_machine create_instance apply_event delete_instance snapshot checkpoint noop : WalEntryType

-- The text of an `InvalidHeader`, by what it reports.
pub data Reason : Type 0 where
  invalid_magic : List ℕ → Reason
  unknown_entry_type : ℕ → Reason

pub data WalError : Type 0 where
  io : WalError
  corrupted_record : ℕ → ℕ → ℕ → WalError
  invalid_header : ℕ → Reason → WalError
  record_too_large : ℕ → ℕ → WalError
  segment_not_found : ℕ → WalError
  offset_too_old : ℕ → ℕ → WalError
  closed : WalError
  invalid_state : String → WalError
  json : WalError

-- `is_retryable`
unfoldable pub is_retryable : WalError → Bool
is_retryable io = true
is_retryable _ = false

-- `as u8`
unfoldable pub entry_type_code : WalEntryType → ℕ
entry_type_code put_machine = 1
entry_type_code create_instance = 2
entry_type_code apply_event = 3
entry_type_code delete_instance = 4
entry_type_code snapshot = 5
entry_type_code checkpoint = 6
entry_type_code noop = 255

unfoldable pub try_from : ℕ → Result WalError WalEntryType
try_from v =
    if eqb v 1
    then ok put_machine
    else if eqb v 2
    then ok create_instance
    else if eqb v 3
    then ok apply_event
    else if eqb v 4
    then ok delete_instance
    else if eqb v 5
    then ok snapshot
    else if eqb v 6
    then ok checkpoint
    else if eqb v 255
    then ok noop
    else err (invalid_header 0 (unknown_entry_type v))

pub record WalRecordHeader : Type 0 where
  pub entry_type : WalEntryType
  pub flags : ℕ
  pub payload_len : ℕ
  pub crc32c : ℕ
  pub sequence : ℕ

pub record WalRecord : Type 0 where
  pub header : WalRecordHeader
  pub payload : List ℕ

unfoldable pub disk_size : WalRecord → ℕ
disk_size r = record_header_size + length r.payload

-- The bytes of a record, before the size check.
unfoldable pub layout : WalRecord → List ℕ
unfolding entry_type_code put_be
layout r =
    wal_magic
    ++ ((entry_type_code r.header.entry_type ∷ r.header.flags ∷ [])
        ++ (put_be 2 0
            ++ (put_be 4 r.header.payload_len
                ++ (put_be 4 r.header.crc32c ++ (put_be 8 r.header.sequence ++ r.payload)))))

unfoldable pub encode : WalRecord → Result WalError (List ℕ)
encode r =
    if ltb max_record_size (length r.payload)
    then err (record_too_large (length r.payload) max_record_size)
    else ok (layout r)

module _ (crc : List ℕ → ℕ) where
  -- `WalRecord::new`
  unfoldable pub new_record : WalEntryType → ℕ → List ℕ → WalRecord
  new_record t sequence payload = record {
    header = record {
      entry_type = t;
      flags = 0;
      payload_len = length payload % 2 ^ 32;
      crc32c = crc payload;
      sequence = sequence;
    };
    payload = payload;
  }

  -- The end of `decode`: the header is consumed, the payload split off and its checksum compared.
  unfoldable pub decode_payload :
      WalEntryType → ℕ → ℕ → ℕ → ℕ → List ℕ → ℕ → Result WalError (Option WalRecord) × List ℕ
  decode_payload t flags payload_len crc_expected sequence body offset =
      let payload = take payload_len body in
      let rest = drop payload_len body in
      if eqb (crc payload) crc_expected
      then (
        ok (
            some (record {
              header = record {
                entry_type = t;
                flags = flags;
                payload_len = payload_len % 2 ^ 32;
                crc32c = crc_expected;
                sequence = sequence;
              };
              payload = payload;
            })),
        rest,
      )
      else (err (corrupted_record offset crc_expected (crc payload)), rest)

  -- `decode` from the entry type on, the magic being right
  unfoldable pub decode_typed :
      Result WalError WalEntryType → List ℕ → ℕ → Result WalError (Option WalRecord) × List ℕ
  unfolding decode_payload
  decode_typed (err e) buf offset =
      (err (invalid_header offset (unknown_entry_type (byte 4 buf))), buf)
  decode_typed (ok t) buf offset =
      let payload_len = from_be (slice 8 4 buf) in
      if ltb max_record_size payload_len
      then (err (record_too_large payload_len max_record_size), buf)
      else if ltb (length buf) (record_header_size + payload_len)
      then (ok none, buf)
      else decode_payload t (byte 5 buf) payload_len (from_be (slice 12 4 buf))
          (from_be (slice 16 8 buf)) (drop record_header_size buf) offset

  unfoldable pub decode : List ℕ → ℕ → Result WalError (Option WalRecord) × List ℕ
  unfolding decode_typed try_from
  decode buf offset =
      if ltb (length buf) record_header_size
      then (ok none, buf)
      else if not (bytes_eq (slice 0 4 buf) wal_magic)
      then (if bytes_eq (slice 0 4 buf) (0 ∷ 0 ∷ 0 ∷ 0 ∷ [])
          then (ok none, buf)
          else (err (invalid_header offset (invalid_magic (slice 0 4 buf))), buf))
      else decode_typed (try_from (byte 4 buf)) buf offset
