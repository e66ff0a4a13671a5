-- ===== src/Tests/Stream.antt =====
-- internal/stream/manager.go: a manager with one client.
use soundswamp.Prelude.{
  ℕ, zero, ◌+◌, ◌*◌, ◌%◌, ◌^◌, ◌≡◌, refl, Bool, true, false, some, List, [], ◌∷◌, ltb, arith,
  length, replicate, length-replicate,
}
use soundswamp.Prelude.Int.{pos, negsuc, to_u64}
use soundswamp.Prelude.Table.{GoString, lookup, string_eq, str_eq}
use soundswamp.Prelude.Text.{codes}
use soundswamp.Protocol.Packet.{Packet, IsPacket, ok, header_size, max_packet_size}
use soundswamp.Protocol.Marshal.{marshal, write_packet}
use soundswamp.Codec
use soundswamp.Codec.{
  Sample, Encoder, EncoderConfig, new_encoder, frame_samples_for, encode, encode_samples,
}
use soundswamp.Stream.{
  ClientStream, BroadcastPacket, Manager, panic, send_audio, do_send_audio, receive,
}
use soundswamp.Stream.Queue.{long_stereo_frame_panics}
use soundswamp.Stream.Send.{IsFrame, planned, advanced, Delivered, do_send_audio_lem}
use soundswamp.Stream.Receive.{keep_alive_moves}

abbrev hello : Packet
hello = record {
  version = 1;
  type = 4;
  seq_num = 7;
  timestamp_us = negsuc 4;
  channel_mask = 255;
  codec = 1;
  payload = codes "hi";
}

abbrev hello_bytes : List ℕ
hello_bytes =
    1 ∷ 4 ∷ 0 ∷ 0 ∷ 0 ∷ 7 ∷ 255 ∷ 255 ∷ 255 ∷ 255 ∷ 255 ∷ 255 ∷ 255 ∷ 251 ∷ 255 ∷ 1 ∷ 0 ∷ 2 ∷ 104
    ∷ 105 ∷ []

hello-IsPacket : IsPacket hello
hello-IsPacket = record {
  version_byte = omega arith;
  type_byte = omega arith;
  seq_num_u32 = omega arith;
  timestamp_i64 = omega arith;
  channel_byte = omega arith;
  codec_byte = omega arith;
  payload_bytes = omega arith;
}

hello_written : marshal hello ≡ ok hello_bytes
unfolding marshal write_packet to_u64
hello_written = refl

-- Samples that are their int16 patterns.
abbrev toy : Sample
toy = record {
  Carrier = ℕ;
  zero = 0;
  one = 32767;
  minus_one = 0;
  lt = ltb;
  to_int16 = λ s. s % 2 ^ 16;
  of_int16 = λ u. u;
}

abbrev stereo_config : ℕ → EncoderConfig
stereo_config ms = record {
  rate = 48000;
  channels = 2;
  bitrate = 128000;
  frame_ms = ms;
  fec = true;
  vbr = true;
}

abbrev listener : ClientStream
listener = record {
  id = codes "hi";
  addr = codes "x";
  seq_num = 4;
  channel_assign = 255;
  frame_size = 10;
  active = true;
}

abbrev one_listener : Manager
one_listener = record {
  clients = (codes "hi", listener) ∷ [];
  running = true;
  stopped = false;
  broadcast_chan = [];
  packet_buf = replicate max_packet_size 0;
  total_packets_sent = 0;
  total_bytes_sent = 0;
}

abbrev frame : BroadcastPacket
frame = record { opus_data = 1 ∷ 2 ∷ []; channel = 2; capture_timestamp = pos 7; codec_flag = 1 }

frame-IsFrame : IsFrame frame
frame-IsFrame = record {
  data_bytes = omega arith;
  data_fits = omega arith;
  channel_byte = omega arith;
  timestamp_i64 = omega arith;
  codec_byte = omega arith;
}

abbrev all_write : GoString → Bool
all_write id = true

do_send_audio_lem_example :
    let pkt : BroadcastPacket = frame in
    let writes : GoString → Bool = all_write in
    let m : Manager = one_listener in
    let m' : Manager = (do_send_audio frame all_write one_listener).0 in
    let q : Packet = hello in
    let out : List (GoString × List ℕ) = (do_send_audio frame all_write one_listener).1 in
    (m'.clients ≡ advanced pkt m.clients)
    × Delivered q (header_size + length pkt.opus_data) out (planned pkt writes m.clients)
    × (m'.total_packets_sent ≡ m.total_packets_sent + length (planned pkt writes m.clients))
    × (m'.total_bytes_sent
        ≡ m.total_bytes_sent
          + length (planned pkt writes m.clients) * (header_size + length pkt.opus_data))
    × (length m'.packet_buf ≡ max_packet_size)
do_send_audio_lem_example =
    do_send_audio_lem frame all_write one_listener ((do_send_audio frame all_write one_listener).0)
      hello ((do_send_audio frame all_write one_listener).1) frame-IsFrame
      (length-replicate max_packet_size zero) refl

keep_alive_moves_example :
    let p : Packet = hello in
    let bytes : List ℕ = hello_bytes in
    let other : GoString = codes "b" in
    let remote : GoString = codes "y" in
    let m : Manager = one_listener in
    let cs : ClientStream = listener in
    (lookup p.payload (receive bytes remote m).clients ≡ some (record cs { addr = remote }))
    × (lookup other (receive bytes remote m).clients ≡ lookup other m.clients)
unfolding lookup str_eq
keep_alive_moves_example =
    keep_alive_moves hello hello_bytes (codes "b") (codes "y") one_listener listener hello-IsPacket
      refl refl (omega arith) hello_written refl ((λ h. ground (arith, h)))

abbrev long_frame : List ℕ
long_frame = replicate 3840 0

abbrev long_packet : BroadcastPacket
long_packet = record {
  opus_data = encode_samples toy long_frame;
  channel = 255;
  capture_timestamp = pos 7;
  codec_flag = 1;
}

abbrev long_encoder : Encoder
long_encoder = record { config = stereo_config 40; frame_samples = 1920 }

long_encoded : encode toy long_encoder long_frame ≡ Codec.ok (encode_samples toy long_frame)
unfolding encode
long_encoded = ground (arith, length-replicate 3840 zero)

long_stereo_frame_panics_example :
    let m : Manager = one_listener in
    let pkt : BroadcastPacket = long_packet in send_audio pkt m ≡ panic
unfolding new_encoder frame_samples_for
long_stereo_frame_panics_example =
    long_stereo_frame_panics toy (stereo_config 40) long_encoder long_frame one_listener long_packet
      refl refl (omega arith) long_encoded
