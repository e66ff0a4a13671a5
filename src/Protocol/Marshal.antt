-- ===== src/Protocol/Marshal.antt =====
-- internal/protocol/packet.go: Marshal, MarshalInto and Unmarshal.
use soundswamp.Prelude.{
  ℕ, ◌+◌, ◌%◌, ◌^◌, Option, none, some, List, ltb, ◌==◌, not, if◌then◌else◌, length, take, drop,
  get_or, set, copy_at, replicate,
}
use soundswamp.Prelude.Int.{to_u64, of_u64}
use soundswamp.Protocol.Bytes.{put_be16, put_be32, put_be64, get_be16, get_be32, get_be64}
use soundswamp.Protocol.Packet.{
  Packet, Error, packet_too_short, bad_version, payload_too_large, payload_mismatch,
  buffer_too_small, Result, ok, err, protocol_version, header_size, max_payload_size,
}

-- The writes that Marshal and MarshalInto make, in their order.
unfoldable pub write_packet : Packet → List ℕ → List ℕ
write_packet p buf =
    let buf = set buf 0 p.version in
    let buf = set buf 1 p.type in
    let buf = copy_at 2 buf (put_be32 p.seq_num) in
    let buf = copy_at 6 buf (put_be64 (to_u64 p.timestamp_us)) in
    let buf = set buf 14 p.channel_mask in
    let buf = set buf 15 p.codec in
    let buf = copy_at 16 buf (put_be16 (length p.payload % 2 ^ 16)) in copy_at 18 buf p.payload

unfoldable pub marshal : Packet → Result (List ℕ)
marshal p =
    if ltb max_payload_size (length p.payload)
    then err payload_too_large
    else ok (write_packet p (replicate (header_size + length p.payload) 0))

-- The buffer is written in place: the call returns it beside the count.
unfoldable pub marshal_into : Packet → List ℕ → Result (ℕ × List ℕ)
marshal_into p buf =
    let needed = header_size + length p.payload in
    if ltb (length buf) needed
    then err buffer_too_small
    else if ltb max_payload_size (length p.payload)
    then err payload_too_large
    else ok (needed, write_packet p buf)

-- The receiver is changed only on success.
unfoldable pub unmarshal : Packet → List ℕ → Packet × Option Error
unmarshal p buf =
    if ltb (length buf) header_size
    then (p, some packet_too_short)
    else let ver = get_or buf 0 0 in
      if not (ver == protocol_version)
      then (p, some bad_version)
      else let payload_len = get_be16 (take 2 (drop 16 buf)) in
        if ltb max_payload_size payload_len
        then (p, some payload_too_large)
        else if ltb (length buf) (header_size + payload_len)
        then (p, some payload_mismatch)
        else (
          record {
            version = ver;
            type = get_or buf 1 0;
            seq_num = get_be32 (take 4 (drop 2 buf));
            timestamp_us = of_u64 (get_be64 (take 8 (drop 6 buf)));
            channel_mask = get_or buf 14 0;
            codec = get_or buf 15 0;
            payload = take payload_len (drop header_size buf);
          },
          none,
        )
