-- ===== src/Protocol/Codec/Stream.antt =====
-- A stream of encoded messages is decoded one after the other.
use rstmdb.Base.{
  ℕ, ◌<◌, ◌≤◌, ◌^◌, ◌≡◌, refl, append_assoc, arith, true, some, List, [], ◌∷◌, ◌++◌, length,
}
use rstmdb.Base.Result.{ok}
use rstmdb.Protocol.Frame.{new_frame, layout, max_payload_size, no_flags, with_crc, encode}
use rstmdb.Protocol.Frame.RoundTrip.{IsValid, read_layout}
use rstmdb.Protocol.Codec.{
  Messages, Decoder, encode_message, decode_message, decode_frame, of_frame, parse, from_json,
}

module _ {M : Type 0} (messages : Messages M) where
  open messages use {crc32c, to_vec, is_utf8, from_str}

  -- A message whose JSON `payload` is read back as the message, and fits a frame.
  pub record IsSent (m : M) (payload : List ℕ) : Type 0 where
    pub written : to_vec m ≡ some payload
    pub utf8 : is_utf8 payload ≡ true
    pub read : from_str payload ≡ some m
    pub fits : length payload ≤ max_payload_size
    pub checksum : crc32c payload < 2 ^ 32

  new_frame-IsValid :
      (payload : List ℕ) → length payload ≤ max_payload_size → IsValid (new_frame payload)
  unfolding new_frame no_flags with_crc
  new_frame-IsValid payload h = record {
    version = refl;
    flags = omega arith;
    extension = omega arith;
    payload = h;
  }

  read_message :
      (m : M) (payload rest : List ℕ)
      → IsSent m payload
      → decode_message messages (record { buffer = layout crc32c (new_frame payload) ++ rest })
        ≡ (ok (some m), record { buffer = rest })
  unfolding decode_message decode_frame of_frame parse new_frame
  read_message m payload rest s =
      rw
        (
          read_layout crc32c (new_frame payload) rest (new_frame-IsValid payload s.fits) s.checksum,
          s.utf8,
          s.read,
        )
        refl

  written_layout :
      (m : M) (payload : List ℕ)
      → IsSent m payload
      → encode_message messages m ≡ ok (layout crc32c (new_frame payload))
  unfolding encode_message encode from_json new_frame
  written_layout m payload s = rw (s.written, from_json, encode_message) (ground (arith, s.fits))

  -- What a sender writes for a list of messages.
  pub data Wrote : List M → List ℕ → Type 0 where
    nothing : Wrote [] []
    wrote :
        {m : M} {payload bytes : List ℕ} {ms : List M} {more : List ℕ}
        → IsSent m payload
        → encode_message messages m ≡ ok bytes
        → Wrote ms more
        → Wrote (m ∷ ms) (bytes ++ more)

  -- The calls of `decode_message` on one decoder return these messages.
  pub data Reads : Decoder → List M → Decoder → Type 0 where
    stop : {d : Decoder} → Reads d [] d
    next :
        {d d' d'' : Decoder} {m : M} {ms : List M}
        → decode_message messages d ≡ (ok (some m), d')
        → Reads d' ms d''
        → Reads d (m ∷ ms) d''

  first :
      (m : M) (payload bytes rest : List ℕ)
      → IsSent m payload
      → encode_message messages m ≡ ok bytes
      → decode_message messages (record { buffer = bytes ++ rest })
        ≡ (ok (some m), record { buffer = rest })
  first m payload bytes rest s e =
      let same : bytes ≡ layout crc32c (new_frame payload) = cc (e, written_layout m payload s) in
      rw same (read_message m payload rest s)

  -- A decoder whose buffer holds what a sender wrote for a list of messages returns just these
  -- messages, in their order, and keeps the bytes that follow.
  pub decode_message-Wrote :
      {ms : List M} {bytes : List ℕ} (rest : List ℕ)
      → Wrote ms bytes
      → Reads (record { buffer = bytes ++ rest }) ms (record { buffer = rest })
  decode_message-Wrote rest nothing = stop
  decode_message-Wrote rest (wrote {m} {payload} {bytes} {ms} {more} s e w) =
      next (rw (append_assoc bytes more rest) (first m payload bytes (more ++ rest) s e))
        (decode_message-Wrote rest w)

  -- A message whose JSON `payload` is read back as the message.
  pub record IsReadBack (m : M) (payload : List ℕ) : Type 0 where
    pub written : to_vec m ≡ some payload
    pub utf8 : is_utf8 payload ≡ true
    pub read : from_str payload ≡ some m
