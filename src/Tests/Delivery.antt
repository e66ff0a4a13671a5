-- ===== src/Tests/Delivery.antt =====
-- cmd/soundswarm-server/main.go: frames on their way to one client.
use soundswamp.Prelude.{
  ℕ, zero, ◌+◌, ◌*◌, ◌%◌, ◌^◌, ◌≡◌, ◌≢◌, refl, ◌⊎◌, Bool, true, false, none, some, List, [], ◌∷◌,
  ltb, arith, length, get_or, replicate, length-replicate,
}
use soundswamp.Prelude.Int.{ℤ, pos, negsuc}
use soundswamp.Prelude.Table.{GoString, string_eq}
use soundswamp.Prelude.Text.{codes}
use soundswamp.Surround.Rows.{at}
use soundswamp.Codec.{Sample, EncoderConfig}
use soundswamp.Protocol.Packet.{Packet, max_packet_size}
use soundswamp.Stream.{Manager, ClientStream, BroadcastPacket, new_manager}
use soundswamp.Stream.Send.{IsFrame}
use soundswamp.Stream.History.{
  Op, join, audio, round, datagram, leave, run, IsManager, run-IsManager,
}
use soundswamp.Stream.Drain.{drain, planned_all, advanced_all, Arrives, sender_drains}
use soundswamp.Pipeline.{Mixing, Clockwork}
use soundswamp.Pipeline.Setup.{Pipeline, setup, frame, Turn, captured, sender}
use soundswamp.Pipeline.Packets.{queued}
use soundswamp.Pipeline.Frames.{IsPipeline, frame_packets, frame-queued}
use soundswamp.Pipeline.Startup.{stereo_pipeline, setup_stereo, setup_lem}
use soundswamp.Pipeline.Delivery.{captured_frame-Arrives}

-- Samples that are their int16 patterns.
abbrev toy : Sample
toy = record {
  Carrier = ℕ;
  zero = 0;
  one = 32767;
  minus_one = 0;
  lt = ltb;
  to_int16 = λ s. s % 2 ^ 16;
  of_int16 = λ u. u;
}

abbrev stereo_config : ℕ → EncoderConfig
stereo_config ms = record {
  rate = 48000;
  channels = 2;
  bitrate = 128000;
  frame_ms = ms;
  fec = true;
  vbr = true;
}

abbrev listener : ClientStream
listener = record {
  id = codes "hi";
  addr = codes "x";
  seq_num = 4;
  channel_assign = 255;
  frame_size = 10;
  active = true;
}

abbrev one_listener : Manager
one_listener = record {
  clients = (codes "hi", listener) ∷ [];
  running = true;
  stopped = false;
  broadcast_chan = [];
  packet_buf = replicate max_packet_size 0;
  total_packets_sent = 0;
  total_bytes_sent = 0;
}

abbrev all_write : GoString → Bool
all_write id = true

abbrev packet : BroadcastPacket
packet = record { opus_data = 1 ∷ 2 ∷ []; channel = 2; capture_timestamp = pos 7; codec_flag = 1 }

packet-IsFrame : IsFrame packet
packet-IsFrame = record {
  data_bytes = omega arith;
  data_fits = omega arith;
  channel_byte = omega arith;
  timestamp_i64 = omega arith;
  codec_byte = omega arith;
}

abbrev one_waits : Manager
one_waits = let m : Manager = one_listener in record m { broadcast_chan = packet ∷ [] }

abbrev hello : Packet
hello = record {
  version = 1;
  type = 4;
  seq_num = 7;
  timestamp_us = negsuc 4;
  channel_mask = 255;
  codec = 1;
  payload = codes "hi";
}

abbrev history : List Op
history =
    join (codes "hi") (codes "x") 255
    ∷ audio packet
    ∷ round all_write
    ∷ datagram (1 ∷ 2 ∷ []) (codes "y")
    ∷ leave (codes "hi")
    ∷ []

abbrev samples : List ℕ
samples = replicate 960 5

abbrev toy_mixing : Mixing toy
toy_mixing = record { add = ◌+◌; mul = ◌*◌; mix = 1 }

abbrev clockwork : Clockwork
clockwork = record { total_samples_processed = pos 48000; pipeline_start_us = pos 500 }

abbrev stereo : Pipeline toy
stereo = stereo_pipeline toy

abbrev turns : List (Turn toy)
turns = captured samples (pos 1000500) ∷ sender all_write ∷ captured samples (pos 1010500) ∷ []

samples_long : length samples ≡ 960
samples_long = length-replicate {A = ℕ} 960 5

run-IsManager_example :
    let ops : List Op = history in (m : Manager) × (run ops new_manager ≡ some m) × IsManager m
run-IsManager_example = run-IsManager history ((tt, (packet-IsFrame, (tt, (tt, (tt, tt))))))

sender_drains_example :
    let ws : List (GoString → Bool) = all_write ∷ [] in
    let frames : List BroadcastPacket = packet ∷ [] in
    let m : Manager = one_waits in
    let q : Packet = hello in
    ((drain ws m).0.broadcast_chan ≡ [])
    × Arrives q (drain ws m).1 (planned_all frames ws m.clients)
    × ((drain ws m).0.clients ≡ advanced_all frames m.clients)
    × ((drain ws m).0.total_packets_sent
        ≡ m.total_packets_sent + length (planned_all frames ws m.clients))
sender_drains_example =
    sender_drains (all_write ∷ []) (packet ∷ []) one_waits hello refl ((packet-IsFrame, tt))
      (length-replicate max_packet_size zero) refl

setup_lem_example :
    let f : Sample = toy in
    let rate : ℕ = 48000 in
    let channels : ℕ = 6 in
    ((rate ≡ 48000)
      × ((channels ≡ 2) ⊎ (channels ≡ 6) ⊎ (channels ≡ 8))
      × ((p : Pipeline f) × (setup f rate channels ≡ some p) × IsPipeline f channels p))
    ⊎ (((rate ≢ 48000) ⊎ ((channels ≢ 2) × (channels ≢ 6) × (channels ≢ 8)))
        × (setup f rate channels ≡ none))
setup_lem_example = setup_lem toy 48000 6

frame-queued_example :
    let f : Sample = toy in
    let x : Mixing toy = toy_mixing in
    let channels : ℕ = 2 in
    let ch : ℕ = 1 in
    let s : ℕ = 7 in
    let p : Pipeline f = stereo in
    let inter : List f.Carrier = samples in
    let ts : ℤ = pos 1000500 in
    let m : Manager = one_listener in
    (p' : Pipeline f) × (frame f x inter ts p m ≡ some (p', queued (frame_packets f p' inter ts) m))
    × IsPipeline f channels p'
    × (p'.layout ≡ p.layout)
    × (p'.surround ≡ p.surround)
    × ((p.surround ≡ false)
        ⊎ (at f.zero p'.demux_bufs ch s ≡ get_or inter (s * channels + ch) f.zero))
frame-queued_example =
    frame-queued toy toy_mixing 2 1 7 stereo samples (pos 1000500) one_listener
      ((setup_stereo toy).1) samples_long (omega arith) (omega arith) (omega arith)

captured_frame-Arrives_example :
    let f : Sample = toy in
    let x : Mixing toy = toy_mixing in
    let p : Pipeline f = stereo in
    let inter : List f.Carrier = samples in
    let ts : ℤ = pos 1000500 in
    let m : Manager = one_listener in
    let ws : List (GoString → Bool) = all_write ∷ [] in
    let q : Packet = hello in
    (p' : Pipeline f) × (m' : Manager) × (frame f x inter ts p m ≡ some (p', m'))
    × ((drain ws m').0.broadcast_chan ≡ [])
    × Arrives q (drain ws m').1 (planned_all (frame_packets f p' inter ts) ws m.clients)
captured_frame-Arrives_example =
    captured_frame-Arrives toy toy_mixing 2 stereo samples (pos 1000500) one_listener
      (all_write ∷ []) hello ((setup_stereo toy).1) (omega arith) samples_long (omega arith) refl
      (length-replicate max_packet_size zero) refl
