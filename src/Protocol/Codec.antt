-- ===== src/Protocol/Codec.antt =====
-- rstmdb-protocol/src/codec.rs: messages as frames and as lines. The JSON and UTF-8 of a message
-- are functions of crates, parameters.
pub mod Stream
use rstmdb.Base.{
  ℕ, Bool, true, false, Option, none, some, List, [], ◌∷◌, ◌++◌, eqb, if◌then◌else◌, length,
}
use rstmdb.Base.Result.{Result, ok, err, ◌>>=◌}
use rstmdb.Protocol.Frame.{Frame, ProtocolError, new_frame, encode, decode, json, invalid_utf8}

-- `serde_json::to_vec`, and `from_utf8` with `from_str`, of the messages of one type
pub record Messages (M : Type 0) : Type 0 where
  pub crc32c : List ℕ → ℕ
  pub to_vec : M → Option (List ℕ)
  pub is_utf8 : List ℕ → Bool
  pub from_str : List ℕ → Option M

pub record Decoder : Type 0 where
  pub buffer : List ℕ

unfoldable pub new : Decoder
new = record { buffer = [] }

unfoldable pub extend : Decoder → List ℕ → Decoder
extend d bytes = record { buffer = d.buffer ++ bytes }

unfoldable pub buffered : Decoder → ℕ
buffered d = length d.buffer

unfoldable pub clear : Decoder → Decoder
clear d = record { buffer = [] }

-- The bytes up to the first newline, and those after it.
unfoldable pub split_line : List ℕ → Option (List ℕ × List ℕ)
split_line [] = none
split_line (b ∷ bs) =
    let rest = split_line bs in
    if eqb b 10 then some ([], bs) else elim rest [ none ↦ none | some e ↦ some (b ∷ e.0, e.1) ]

module _ {M : Type 0} (messages : Messages M) where
  open messages use {crc32c, to_vec, is_utf8, from_str}

  -- `Frame::from_json`
  unfoldable pub from_json : M → Result ProtocolError Frame
  from_json m = elim (to_vec m) [ none ↦ err json | some payload ↦ ok (new_frame payload) ]

  -- `encode_request`, `encode_response` and `encode_json`
  unfoldable pub encode_message : M → Result ProtocolError (List ℕ)
  unfolding from_json
  encode_message m = from_json m >>= λ frame. encode crc32c frame

  unfoldable pub decode_frame : Decoder → Result ProtocolError (Option Frame) × Decoder
  decode_frame d = let (r, buffer) = decode crc32c d.buffer in (r, record { buffer = buffer })

  -- A payload as a message.
  unfoldable pub parse : List ℕ → Result ProtocolError (Option M)
  parse payload =
      if is_utf8 payload
      then elim (from_str payload) [ none ↦ err json | some m ↦ ok (some m) ]
      else err invalid_utf8

  unfoldable pub of_frame : Result ProtocolError (Option Frame) → Result ProtocolError (Option M)
  unfolding parse
  of_frame (err e) = err e
  of_frame (ok none) = ok none
  of_frame (ok (some frame)) = parse frame.payload

  -- `decode_request` and `decode_response`
  unfoldable pub decode_message : Decoder → Result ProtocolError (Option M) × Decoder
  unfolding decode_frame of_frame
  decode_message d = let (r, d') = decode_frame d in (of_frame r, d')

  -- `jsonl::encode`
  unfoldable pub encode_line : M → Result ProtocolError (List ℕ)
  encode_line m = elim (to_vec m) [ none ↦ err json | some bytes ↦ ok (bytes ++ (10 ∷ [])) ]

  -- `LineDecoder::decode_line`, on the buffer
  unfoldable pub decode_line : List ℕ → Result ProtocolError (Option M) × List ℕ
  unfolding split_line parse
  decode_line buffer = elim (split_line buffer) [
    | none ↦ (ok none, buffer)
    | some e ↦ (parse e.0, e.1)
  ]
