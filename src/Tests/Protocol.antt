-- ===== src/Tests/Protocol.antt =====
-- internal/protocol/packet.go: one packet written and read, and framed messages.
use soundswamp.Prelude.{
  ℕ, ◌+◌, ◌≤◌, ◌<◌, ◌≡◌, refl, ◌⊎◌, none, some, List, [], ◌∷◌, ◌++◌, arith, length, take, drop,
  replicate,
}
use soundswamp.Prelude.Int.{negsuc, to_u64, of_u64}
use soundswamp.Prelude.Table.{string_eq}
use soundswamp.Prelude.Text.{codes}
use soundswamp.Protocol.Packet.{
  Packet, IsPacket, ok, err, header_size, max_payload_size, buffer_too_small, payload_too_large,
}
use soundswamp.Protocol.Marshal.{marshal, marshal_into, unmarshal, write_packet}
use soundswamp.Protocol.RoundTrip.{unmarshal-marshal, marshal-unmarshal, marshal_into-marshal}
use soundswamp.Protocol.Framing.{
  read_messages-frames, read_messages_ends, read_messages, encode_tcp_message, frames, eof,
  ReadError,
}

abbrev hello : Packet
hello = record {
  version = 1;
  type = 4;
  seq_num = 7;
  timestamp_us = negsuc 4;
  channel_mask = 255;
  codec = 1;
  payload = codes "hi";
}

abbrev hello_bytes : List ℕ
hello_bytes =
    1 ∷ 4 ∷ 0 ∷ 0 ∷ 0 ∷ 7 ∷ 255 ∷ 255 ∷ 255 ∷ 255 ∷ 255 ∷ 255 ∷ 255 ∷ 251 ∷ 255 ∷ 1 ∷ 0 ∷ 2 ∷ 104
    ∷ 105 ∷ []

hello-IsPacket : IsPacket hello
hello-IsPacket = record {
  version_byte = omega arith;
  type_byte = omega arith;
  seq_num_u32 = omega arith;
  timestamp_i64 = omega arith;
  channel_byte = omega arith;
  codec_byte = omega arith;
  payload_bytes = omega arith;
}

hello_written : marshal hello ≡ ok hello_bytes
unfolding marshal write_packet to_u64
hello_written = refl

hello_read : unmarshal hello (hello_bytes ++ (9 ∷ [])) ≡ (hello, none)
unfolding unmarshal of_u64
hello_read = refl

unmarshal-marshal_example :
    let p : Packet = hello in
    let q : Packet = hello in
    let trailing : List ℕ = 9 ∷ [] in
    (b : List ℕ) × (marshal p ≡ ok b)
    × (length b ≡ header_size + length p.payload)
    × (unmarshal q (b ++ trailing) ≡ (p, none))
unmarshal-marshal_example = unmarshal-marshal hello hello (9 ∷ []) hello-IsPacket refl (omega arith)

marshal-unmarshal_example :
    let p : Packet = hello in
    let b : List ℕ = hello_bytes ++ (9 ∷ []) in
    IsPacket p × (marshal p ≡ ok (take (header_size + length p.payload) b))
marshal-unmarshal_example =
    marshal-unmarshal hello hello (hello_bytes ++ (9 ∷ [])) (omega arith) hello_read

marshal_into-marshal_example :
    let p : Packet = hello in
    let buf : List ℕ = replicate 30 0 in
    ((length buf < header_size + length p.payload) × (marshal_into p buf ≡ err buffer_too_small))
    ⊎ ((header_size + length p.payload ≤ length buf)
        × (max_payload_size < length p.payload)
        × (marshal_into p buf ≡ err payload_too_large)
        × (marshal p ≡ err payload_too_large))
    ⊎ ((b : List ℕ) × (header_size + length p.payload ≤ length buf)
        × (marshal p ≡ ok b)
        × (marshal_into p buf ≡ ok (length b, b ++ drop (length b) buf)))
marshal_into-marshal_example = marshal_into-marshal hello (replicate 30 0)

read_messages-frames_example :
    let ms : List (List ℕ) = (1 ∷ 2 ∷ []) ∷ [] ∷ [] in
    let fuel : ℕ = 11 in read_messages fuel (frames ms) ≡ (ms, some eof)
unfolding encode_tcp_message
read_messages-frames_example =
    read_messages-frames ((1 ∷ 2 ∷ []) ∷ [] ∷ []) 11 (omega arith) (omega arith)

read_messages_ends_example :
    let fuel : ℕ = 3 in
    let stream : List ℕ = 0 ∷ 1 ∷ [] in (e : ReadError) × ((read_messages fuel stream).1 ≡ some e)
read_messages_ends_example = read_messages_ends 3 (0 ∷ 1 ∷ []) (omega arith)
