-- ===== src/Examples/Bytes.antt =====
-- Records, segments and frames with a checksum that is always 7.
use rstmdb.Base.{ℕ, ◌≡◌, refl, List, [], ◌∷◌, ◌++◌, some, none, true, arith, take, drop}
use rstmdb.Base.Result.{ok}
use rstmdb.Wal.Record.{WalRecord, WalEntryType, layout, decode, new_record, disk_size}
use rstmdb.Wal.Record.RoundTrip.{IsValid, decode-layout, decode-take, decode-Accepted, Accepted}
use rstmdb.Wal.Segment.{read_all}
use rstmdb.Wal.Segment.ReadAll.{placed, Torn, Torn-take, read_all-layouts}
use rstmdb.Protocol.Frame.{Frame, encode, new_frame}
use rstmdb.Protocol.Frame
use rstmdb.Protocol.Frame.RoundTrip
use rstmdb.Protocol.Frame.RoundTrip.{decode-encode}
use rstmdb.Protocol.Codec.{Messages, encode_message}
use rstmdb.Protocol.Codec.Stream.{IsSent, Wrote, Reads, decode_message-Wrote}

abbrev seven : List ℕ → ℕ
seven bytes = 7

abbrev a_record : WalRecord
a_record = new_record seven WalEntryType.apply_event 5 (123 ∷ 125 ∷ [])

a_record-IsValid : IsValid seven a_record
unfolding new_record
a_record-IsValid = record {
  flags_byte = omega arith;
  len = refl;
  len_max = omega arith;
  checksum = refl;
  crc_word = omega arith;
  sequence_word = omega arith;
}

decode-layout_example :
    decode seven (layout a_record ++ (1 ∷ 2 ∷ [])) 40 ≡ (ok (some a_record), 1 ∷ 2 ∷ [])
decode-layout_example = decode-layout seven a_record (1 ∷ 2 ∷ []) 40 a_record-IsValid

decode-take_example :
    decode seven (take 25 (layout a_record)) 40 ≡ (ok none, take 25 (layout a_record))
unfolding disk_size new_record
decode-take_example = decode-take seven a_record 25 40 a_record-IsValid (omega arith)

decode-Accepted_example : Accepted seven (layout a_record ++ (1 ∷ 2 ∷ [])) a_record (1 ∷ 2 ∷ [])
decode-Accepted_example =
    decode-Accepted seven (layout a_record ++ (1 ∷ 2 ∷ [])) 40 decode-layout_example

abbrev tail : List ℕ
tail = take 25 (layout a_record)

tail-Torn : Torn seven tail
unfolding disk_size new_record
tail-Torn = Torn-take seven a_record 25 a_record-IsValid (omega arith)

read_all-layouts_example :
    read_all seven (take 10 (layout a_record ++ tail) ∷ drop 10 (layout a_record ++ tail) ∷ [])
    ≡ ok (placed 0 (a_record ∷ []))
unfolding new_record layout
read_all-layouts_example =
    read_all-layouts seven
      (take 10 (layout a_record ++ tail) ∷ drop 10 (layout a_record ++ tail) ∷ []) (a_record ∷ [])
      tail (a_record-IsValid, tt) tail-Torn refl

abbrev a_frame : Frame
a_frame = new_frame (123 ∷ 125 ∷ [])

a_frame-IsValid : RoundTrip.IsValid a_frame
unfolding new_frame Frame.no_flags Frame.with_crc
a_frame-IsValid = record {
  version = refl;
  flags = omega arith;
  extension = omega arith;
  payload = omega arith;
}

decode-encode_example :
    Frame.decode seven (Frame.layout seven a_frame ++ (82 ∷ [])) ≡ (ok (some a_frame), 82 ∷ [])
unfolding encode new_frame Frame.no_flags Frame.with_crc
decode-encode_example =
    decode-encode seven a_frame (Frame.layout seven a_frame) (82 ∷ []) a_frame-IsValid (omega arith)
      refl

-- Messages that are bytes, and their own JSON.
abbrev messages : Messages (List ℕ)
messages = record {
  crc32c = seven;
  to_vec = λ m. some m;
  is_utf8 = λ m. true;
  from_str = λ m. some m;
}

two_bytes-IsSent : IsSent messages (123 ∷ 125 ∷ []) (123 ∷ 125 ∷ [])
two_bytes-IsSent = record {
  written = refl;
  utf8 = refl;
  read = refl;
  fits = omega arith;
  checksum = omega arith;
}

abbrev sent : List ℕ
sent = Frame.layout seven a_frame ++ (Frame.layout seven a_frame ++ [])

sent-Wrote : Wrote messages ((123 ∷ 125 ∷ []) ∷ (123 ∷ 125 ∷ []) ∷ []) sent
unfolding encode_message encode new_frame Frame.no_flags Frame.with_crc
sent-Wrote = Wrote.wrote two_bytes-IsSent refl (Wrote.wrote two_bytes-IsSent refl Wrote.nothing)

decode_message-Wrote_example :
    Reads messages
      (record { buffer = sent ++ (82 ∷ 67 ∷ []) })
      ((123 ∷ 125 ∷ []) ∷ (123 ∷ 125 ∷ []) ∷ [])
      (record { buffer = 82 ∷ 67 ∷ [] })
decode_message-Wrote_example = decode_message-Wrote messages (82 ∷ 67 ∷ []) sent-Wrote
