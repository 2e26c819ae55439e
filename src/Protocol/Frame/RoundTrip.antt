-- ===== src/Protocol/Frame/RoundTrip.antt =====
-- What `decode` does with the bytes that `encode` wrote.
use rstmdb.Base.{
  ℕ, ◌+◌, ◌%◌, ◌<◌, ◌≤◌, ◌^◌, ◌≡◌, refl, sym, append_assoc, some, List, ◌++◌, arith, length,
  take-append, drop-append, length-append,
}
use rstmdb.Base.Bytes.{put_be, from_be-put_be}
use rstmdb.Base.Result.{ok}
use rstmdb.Protocol.Frame.{
  FrameFlags, frame_magic, Frame, layout, encode, decode, decode_body, decode_lengths, from_bits,
  crc_of, max_payload_size, protocol_version,
}

-- A frame of version 1 whose fields fit the words of the header.
pub record IsValid (f : Frame) : Type 0 where
  pub version : f.version ≡ protocol_version
  pub flags : f.flags.bits < 16
  pub extension : length f.header_extension < 2 ^ 16
  pub payload : length f.payload ≤ max_payload_size

module _ (crc : List ℕ → ℕ) where
  header : ℕ → ℕ → ℕ → ℕ → ℕ → List ℕ → List ℕ
  header version flags header_len payload_len c tail =
      frame_magic
      ++ (put_be 2 version
          ++ (put_be 2 flags
              ++ (put_be 2 header_len ++ (put_be 4 payload_len ++ (put_be 4 c ++ tail)))))

  read_lengths :
      (flags : FrameFlags) (version bits header_len payload_len c : ℕ) (tail : List ℕ)
      → header_len < 2 ^ 16
      → payload_len ≤ max_payload_size
      → c < 2 ^ 32
      → header_len + payload_len ≤ length tail
      → decode_lengths crc (ok flags) (header version bits header_len payload_len c tail)
        ≡ decode_body crc flags header_len payload_len c tail
  unfolding decode_lengths header put_be
  read_lengths flags version bits header_len payload_len c tail h p k l =
      ground (arith, from_be-put_be 2 header_len, from_be-put_be 4 payload_len, from_be-put_be 4 c)

  read_header :
      (flags : FrameFlags) (header_len payload_len c : ℕ) (tail : List ℕ)
      → flags.bits < 16
      → decode crc (header protocol_version flags.bits header_len payload_len c tail)
        ≡ decode_lengths crc
            (ok flags)
            (header protocol_version flags.bits header_len payload_len c tail)
  unfolding decode header put_be from_bits
  read_header flags header_len payload_len c tail h =
      ground (arith, from_be-put_be 2 protocol_version, from_be-put_be 2 flags.bits)

  body :
      (f : Frame) (rest : List ℕ)
      → IsValid f
      → decode_body crc f.flags
          (length f.header_extension)
          (length f.payload)
          (crc_of crc f)
          (f.header_extension ++ (f.payload ++ rest))
        ≡ (ok (some f), rest)
  unfolding decode_body crc_of
  body f rest v = rw (take-append, drop-append, take-append, drop-append) (ground arith)

  layout-header :
      (f : Frame) (rest : List ℕ)
      → IsValid f
      → layout crc f ++ rest
        ≡ header protocol_version f.flags.bits
            (length f.header_extension)
            (length f.payload)
            (crc_of crc f)
            (f.header_extension ++ (f.payload ++ rest))
  unfolding layout header
  layout-header f rest v =
      let small : length f.header_extension % 65536 ≡ length f.header_extension = omega arith in
      let small' : length f.payload % 4294967296 ≡ length f.payload = omega arith in
      rw (small, small', v.version, sym (append_assoc f.header_extension f.payload rest)) refl

  crc_of-word : (f : Frame) → crc f.payload < 2 ^ 32 → crc_of crc f < 2 ^ 32
  unfolding crc_of
  crc_of-word f h = ground arith

  pub read_layout :
      (f : Frame) (rest : List ℕ)
      → IsValid f
      → crc f.payload < 2 ^ 32
      → decode crc (layout crc f ++ rest) ≡ (ok (some f), rest)
  read_layout f rest v h =
      rw
        (
          layout-header f rest v,
          read_header f.flags (length f.header_extension) (length f.payload) (crc_of crc f)
              (f.header_extension ++ (f.payload ++ rest)) v.flags,
          read_lengths f.flags protocol_version f.flags.bits (length f.header_extension)
              (length f.payload) (crc_of crc f) (f.header_extension ++ (f.payload ++ rest))
              v.extension v.payload (crc_of-word f h)
              (omega (
                arith,
                length-append f.header_extension (f.payload ++ rest),
                length-append f.payload rest,
              )),
        )
        (body f rest v)

  -- What `encode` writes for a version 1 frame with valid flags, an extension below 64 KiB, a
  -- payload within the limit and a checksum of 32 bits is decoded to the frame, and the bytes
  -- that follow are left.
  pub decode-encode :
      (f : Frame) (bytes rest : List ℕ)
      → IsValid f
      → crc f.payload < 2 ^ 32
      → encode crc f ≡ ok bytes
      → decode crc (bytes ++ rest) ≡ (ok (some f), rest)
  unfolding encode
  decode-encode f bytes rest v h e =
      let same : bytes ≡ layout crc f = ground (arith, e, v.payload) in
      rw same (read_layout f rest v h)
