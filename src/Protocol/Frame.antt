-- ===== src/Protocol/Frame.antt =====
-- rstmdb-protocol/src/frame.rs: one frame of the wire protocol as bytes.
pub mod RoundTrip
use rstmdb.Base.{
  ℕ, zero, suc, ◌+◌, ◌*◌, ◌/◌, ◌%◌, ◌^◌, Bool, true, false, not, Option, none, some, List, [], ◌∷◌,
  ◌++◌, ltb, leb, eqb, if◌then◌else◌, length, take, drop,
}
use rstmdb.Base.Bytes.{put_be, from_be, bytes_eq, slice}
use rstmdb.Base.Result.{Result, ok, err, ◌>>=◌}

abbrev pub frame_magic : List ℕ
frame_magic = 82 ∷ 67 ∷ 80 ∷ 88 ∷ []

abbrev pub frame_header_size : ℕ
frame_header_size = 18

abbrev pub protocol_version : ℕ
protocol_version = 1

abbrev pub max_payload_size : ℕ
max_payload_size = 16 * 1024 * 1024

pub data ProtocolError : Type 0 where
  invalid_magic : List ℕ → ProtocolError
  unsupported_version invalid_flags incomplete_frame : ℕ → ProtocolError
  frame_too_large crc_mismatch : ℕ → ℕ → ProtocolError
  json io invalid_utf8 missing_field : ProtocolError

-- The bit of value `b`, a power of two, of `bits`.
abbrev pub bit : ℕ → ℕ → Bool
bit b bits = eqb (bits / b % 2) 1

abbrev set_bit : ℕ → ℕ → ℕ
set_bit b bits = if bit b bits then bits else bits + b

-- `FrameFlags`: 16 bits
pub record FrameFlags : Type 0 where
  pub bits : ℕ

unfoldable pub no_flags : FrameFlags
no_flags = record { bits = 0 }

unfoldable pub with_crc : FrameFlags → FrameFlags
with_crc f = record { bits = set_bit 1 f.bits }

unfoldable pub with_stream : FrameFlags → FrameFlags
with_stream f = record { bits = set_bit 4 f.bits }

unfoldable pub with_end_stream : FrameFlags → FrameFlags
with_end_stream f = record { bits = set_bit 8 f.bits }

unfoldable pub has_crc : FrameFlags → Bool
has_crc f = bit 1 f.bits

unfoldable pub is_compressed : FrameFlags → Bool
is_compressed f = bit 2 f.bits

unfoldable pub is_stream : FrameFlags → Bool
is_stream f = bit 4 f.bits

unfoldable pub is_end_stream : FrameFlags → Bool
is_end_stream f = bit 8 f.bits

-- Only the four low bits may be set.
unfoldable pub from_bits : ℕ → Result ProtocolError FrameFlags
from_bits bits = if eqb (bits / 16) 0 then ok (record { bits = bits }) else err (invalid_flags bits)

pub record Frame : Type 0 where
  pub version : ℕ
  pub flags : FrameFlags
  pub header_extension : List ℕ
  pub payload : List ℕ

-- `Frame::new`
unfoldable pub new_frame : List ℕ → Frame
unfolding no_flags with_crc
new_frame payload = record {
  version = protocol_version;
  flags = with_crc no_flags;
  header_extension = [];
  payload = payload;
}

module _ (crc : List ℕ → ℕ) where
  unfoldable pub crc_of : Frame → ℕ
  unfolding has_crc
  crc_of f = if has_crc f.flags then crc f.payload else 0

  -- The bytes of a frame, before the size check. The two lengths are cut to their words.
  unfoldable pub layout : Frame → List ℕ
  unfolding put_be crc_of
  layout f =
      frame_magic
      ++ (put_be 2 f.version
          ++ (put_be 2 f.flags.bits
              ++ (put_be 2 (length f.header_extension % 2 ^ 16)
                  ++ (put_be 4 (length f.payload % 2 ^ 32)
                      ++ (put_be 4 (crc_of f) ++ (f.header_extension ++ f.payload))))))

  unfoldable pub encode : Frame → Result ProtocolError (List ℕ)
  unfolding layout
  encode f =
      let payload_len = length f.payload % 2 ^ 32 in
      if ltb max_payload_size payload_len
      then err (frame_too_large payload_len max_payload_size)
      else ok (layout f)

  -- The end of `decode`: the header is consumed, the extension and the payload are split off.
  unfoldable pub decode_body :
      FrameFlags → ℕ → ℕ → ℕ → List ℕ → Result ProtocolError (Option Frame) × List ℕ
  unfolding has_crc
  decode_body flags header_len payload_len crc_expected body =
      let payload = take payload_len (drop header_len body) in
      let rest = drop payload_len (drop header_len body) in
      let wrong = if has_crc flags then not (eqb (crc payload) crc_expected) else false in
      if wrong then (err (crc_mismatch crc_expected (crc payload)), rest) else (
        ok (
            some (record {
              version = protocol_version;
              flags = flags;
              header_extension = take header_len body;
              payload = payload;
            })),
        rest,
      )

  -- `decode` from the lengths on, the flags being read
  unfoldable pub decode_lengths :
      Result ProtocolError FrameFlags → List ℕ → Result ProtocolError (Option Frame) × List ℕ
  unfolding decode_body
  decode_lengths (err e) buf = (err e, buf)
  decode_lengths (ok flags) buf =
      let header_len = from_be (slice 8 2 buf) in
      let payload_len = from_be (slice 10 4 buf) in
      if ltb max_payload_size payload_len
      then (err (frame_too_large payload_len max_payload_size), buf)
      else if ltb (length buf) (frame_header_size + header_len + payload_len)
      then (ok none, buf)
      else decode_body flags header_len payload_len (from_be (slice 14 4 buf))
          (drop frame_header_size buf)

  unfoldable pub decode : List ℕ → Result ProtocolError (Option Frame) × List ℕ
  unfolding decode_lengths from_bits
  decode buf =
      let version = from_be (slice 4 2 buf) in
      if ltb (length buf) frame_header_size
      then (ok none, buf)
      else if not (bytes_eq (slice 0 4 buf) frame_magic)
      then (err (invalid_magic (slice 0 4 buf)), buf)
      else if not (eqb version protocol_version)
      then (err (unsupported_version version), buf)
      else decode_lengths (from_bits (from_be (slice 6 2 buf))) buf
