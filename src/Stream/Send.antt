-- ===== src/Stream/Send.antt =====
-- internal/stream/manager.go: what doSendAudio sends to whom.
use mathlib.Core.Path.{subst}
use soundswamp.Prelude.{
  ◌&&◌, ◌||◌, ◌==◌, ℕ, suc, ◌+◌, ◌*◌, ◌%◌, ◌^◌, ◌≤◌, ◌≡◌, refl, ap, ◌∙◌, sym, inl, inr, Bool, true,
  false, none, List, [], ◌∷◌, ◌++◌, arith, if◌then◌else◌, length, take, Bool-cases, length-append,
  drop, take-append, append-nil, length-drop,
}
use soundswamp.Prelude.Int.{IsI64}
use soundswamp.Prelude.Table.{GoString, Table, string_eq}
use soundswamp.Protocol.Bytes.{IsByte, IsBytes}
use soundswamp.Protocol.ChannelMask.{stereo_mix}
use soundswamp.Protocol.Packet.{
  Packet, IsPacket, ok, header_size, max_payload_size, max_packet_size,
}
use soundswamp.Protocol.Marshal.{marshal_into, unmarshal}
use soundswamp.Protocol.RoundTrip.{unmarshal-marshal, marshal_into-marshal}
use soundswamp.Stream.{
  Manager, ClientStream, BroadcastPacket, Sent, selected, audio_packet, before, send_all,
  do_send_audio, total_length,
}

-- A frame whose fields fit their types, with a payload that fits a packet.
pub record IsFrame (pkt : BroadcastPacket) : Type 0 where
  pub data_bytes : IsBytes pkt.opus_data
  pub data_fits : length pkt.opus_data ≤ max_payload_size
  pub channel_byte : IsByte pkt.channel
  pub timestamp_i64 : IsI64 pkt.capture_timestamp
  pub codec_byte : IsByte pkt.codec_flag

audio_packet-IsPacket :
    (pkt : BroadcastPacket) (cs : ClientStream) → IsFrame pkt → IsPacket (audio_packet pkt cs)
unfolding audio_packet
audio_packet-IsPacket pkt cs v = record {
  version_byte = omega arith;
  type_byte = omega arith;
  seq_num_u32 = omega arith;
  timestamp_i64 = v.timestamp_i64;
  channel_byte = v.channel_byte;
  codec_byte = v.codec_byte;
  payload_bytes = v.data_bytes;
}

-- An audio packet on the wire: version 1, type 1, and the frame's time, channel, codec and bytes.
abbrev pub packet_of : BroadcastPacket → ℕ → Packet
packet_of pkt seq = record {
  version = 1;
  type = 1;
  seq_num = seq;
  timestamp_us = pkt.capture_timestamp;
  channel_mask = pkt.channel;
  codec = pkt.codec_flag;
  payload = pkt.opus_data;
}

-- One client's datagram: it fits the buffer, whose size stays, and Unmarshal reads the packet from it.
marshal_audio :
    (pkt : BroadcastPacket) (cs : ClientStream) (q : Packet) (buf : List ℕ)
    → IsFrame pkt
    → length buf ≡ max_packet_size
    → (n : ℕ) × (filled : List ℕ) × (marshal_into (audio_packet pkt cs) buf ≡ ok (n, filled))
      × (length filled ≡ max_packet_size)
      × (length (take n filled) ≡ header_size + length pkt.opus_data)
      × (unmarshal q (take n filled) ≡ (packet_of pkt ((cs.seq_num + 1) % 2 ^ 32), none))
unfolding audio_packet
marshal_audio pkt cs q buf v size =
    let p : Packet = audio_packet pkt cs in
    let (b, encoded, long, decoded) =
      unmarshal-marshal p q [] (audio_packet-IsPacket pkt cs v) refl v.data_fits in
    elim (marshal_into-marshal p buf) [
      | inl (short, _) ↦ absurd (omega (arith, v.data_fits))
      | inr (inl (_, large, _, _)) ↦ absurd (omega (arith, v.data_fits))
      | inr (inr (c, room, again, into)) ↦
          let same : c ≡ b = cc in
          let cut : take (length c) (c ++ drop (length c) buf) ≡ b =
            take-append c (drop (length c) buf) ∙ same in
          (
            length c,
            c ++ drop (length c) buf,
            into,
            omega (
              arith,
              length-append c (drop (length c) buf),
              length-drop (length c) buf,
              ap length same,
            ),
            ap length cut ∙ long,
            rw cut (ap (λ l. unmarshal q l) (sym (append-nil b)) ∙ decoded),
          )
    ]

-- A client that is active hears its own channel; a client of the stereo mix hears every channel, and a
-- frame of the stereo mix goes to everyone.
abbrev pub hears : ℕ → ClientStream → Bool
hears channel cs =
    cs.active
    && (channel == stereo_mix || (cs.channel_assign == stereo_mix || cs.channel_assign == channel))

selected-hears : (channel : ℕ) (cs : ClientStream) → selected channel cs ≡ hears channel cs
unfolding selected
selected-hears channel cs = ground arith

-- The packets that a broadcast means to deliver, with their addresses: one for each client that hears
-- it and whose datagram the socket takes, with that client's next sequence number.
abbrev pub planned :
    BroadcastPacket → (GoString → Bool) → Table GoString ClientStream → List (GoString × Packet)
planned pkt writes [] = []
planned pkt writes ((id, cs) ∷ m) =
    let rest = planned pkt writes m in
    if hears pkt.channel cs
    then (if writes id then (cs.addr, packet_of pkt ((cs.seq_num + 1) % 2 ^ 32)) ∷ rest else rest)
    else rest

-- The clients after it: those that hear it have moved to the next sequence number, modulo 2 ^ 32.
abbrev pub advanced : BroadcastPacket → Table GoString ClientStream → Table GoString ClientStream
advanced pkt [] = []
advanced pkt ((id, cs) ∷ m) =
    (id, if hears pkt.channel cs then record cs { seq_num = (cs.seq_num + 1) % 2 ^ 32 } else cs)
    ∷ advanced pkt m

-- Datagram by datagram, the bytes are what Unmarshal reads as the packet, at the address meant for it.
abbrev pub Delivered : Packet → ℕ → List (GoString × List ℕ) → List (GoString × Packet) → Type 0
Delivered q size [] [] = Unit {0}
Delivered q size [] (x ∷ xs) = ⊥
Delivered q size (y ∷ ys) [] = ⊥
Delivered q size ((a, bytes) ∷ out) ((a', p) ∷ plan) =
    (a ≡ a') × (length bytes ≡ size) × (unmarshal q bytes ≡ (p, none)) × Delivered q size out plan

abbrev Broadcast :
    BroadcastPacket → (GoString → Bool) → Table GoString ClientStream → Packet → Sent → Type 0
Broadcast pkt writes m q (m', buf, out) =
    (m' ≡ advanced pkt m)
    × (length buf ≡ max_packet_size)
    × Delivered q (header_size + length pkt.opus_data) out (planned pkt writes m)

skip-Broadcast :
    (pkt : BroadcastPacket) (writes : GoString → Bool) (id : GoString) (cs : ClientStream)
    (m : Table GoString ClientStream) (q : Packet) (r : Sent)
    → hears pkt.channel cs ≡ false
    → Broadcast pkt writes m q r
    → Broadcast pkt writes ((id, cs) ∷ m) q (before id cs [] r)
unfolding before
skip-Broadcast pkt writes id cs m q (m', buf, out) skip b =
    (rw skip (ap (λ l. (id, cs) ∷ l) b.0), b.1, rw skip b.2)

take-Broadcast :
    (pkt : BroadcastPacket) (writes : GoString → Bool) (id : GoString) (cs : ClientStream)
    (m : Table GoString ClientStream) (q : Packet) (bytes : List ℕ) (r : Sent)
    → hears pkt.channel cs ≡ true
    → length bytes ≡ header_size + length pkt.opus_data
    → unmarshal q bytes ≡ (packet_of pkt ((cs.seq_num + 1) % 2 ^ 32), none)
    → Broadcast pkt writes m q r
    → Broadcast pkt writes ((id, cs) ∷ m) q (
        before id
          (record cs { seq_num = (cs.seq_num + 1) % 2 ^ 32 })
          (if writes id then (cs.addr, bytes) ∷ [] else [])
          r)
unfolding before
take-Broadcast pkt writes id cs m q bytes (m', buf, out) hit size decoded b = (
  rw hit (ap (λ l. (id, record cs { seq_num = (cs.seq_num + 1) % 2 ^ 32 }) ∷ l) b.0),
  b.1,
  rw hit (elim (Bool-cases (writes id)) [
    | inl sent ↦ rw sent (refl, size, decoded, b.2)
    | inr lost ↦ rw lost b.2
  ]),
)

send_all-Broadcast :
    (pkt : BroadcastPacket) (writes : GoString → Bool) (m : Table GoString ClientStream)
    (q : Packet) (buf : List ℕ)
    → IsFrame pkt
    → length buf ≡ max_packet_size
    → Broadcast pkt writes m q (send_all pkt writes m buf)
unfolding send_all
send_all-Broadcast pkt writes [] q buf v size = (refl, size, tt)
send_all-Broadcast pkt writes ((id, cs) ∷ m) q buf v size =
    elim (Bool-cases (selected pkt.channel cs)) [
      | inr skip ↦ subst (Broadcast pkt writes ((id, cs) ∷ m) q) (sym (step_skip skip)) (
          skip-Broadcast pkt writes id cs m q (send_all pkt writes m buf)
            (sym (selected-hears pkt.channel cs) ∙ skip)
            (send_all-Broadcast pkt writes m q buf v size))
      | inl hit ↦
          let (n, filled, into, size', long, decoded) = marshal_audio pkt cs q buf v size in
          subst (Broadcast pkt writes ((id, cs) ∷ m) q) (sym (step_take hit n filled into)) (
            take-Broadcast pkt writes id cs m q (take n filled) (send_all pkt writes m filled)
              (sym (selected-hears pkt.channel cs) ∙ hit) long decoded
              (send_all-Broadcast pkt writes m q filled v size'))
    ]
  where
    step_skip :
        selected pkt.channel cs ≡ false
        → send_all pkt writes ((id, cs) ∷ m) buf ≡ before id cs [] (send_all pkt writes m buf)
    step_skip skip = rw (skip, send_all)

    step_take :
        selected pkt.channel cs ≡ true
        → (n : ℕ) (filled : List ℕ) → marshal_into (audio_packet pkt cs) buf ≡ ok (n, filled)
        → send_all pkt writes ((id, cs) ∷ m) buf
          ≡ before id
              (record cs { seq_num = (cs.seq_num + 1) % 2 ^ 32 })
              (if writes id then (cs.addr, take n filled) ∷ [] else [])
              (send_all pkt writes m filled)
    step_take hit n filled into = rw (hit, into, send_all)

total_length-Delivered :
    (q : Packet) (size : ℕ) (out : List (GoString × List ℕ)) (plan : List (GoString × Packet))
    → Delivered q size out plan
    → (total_length out ≡ length plan * size) × (length out ≡ length plan)
unfolding total_length
total_length-Delivered q size [] [] d = (omega arith, refl)
total_length-Delivered q size [] (x ∷ xs) d = absurd d
total_length-Delivered q size (y ∷ ys) [] d = absurd d
total_length-Delivered q size ((a, bytes) ∷ out) ((a', p) ∷ plan) d =
    let rest = total_length-Delivered q size out plan d.3 in (grind arith, ap suc rest.1)

-- One broadcast of a frame that fits, from a manager whose packet buffer has its full size. The clients
-- that it is for are the active ones of its channel or of the stereo mix, and, if it is itself the stereo
-- mix, all active ones. Each of these moves to its next sequence number and no other client changes; the
-- datagrams that go out are, in order, exactly one for each of these whose write succeeds, to its address,
-- and Unmarshal reads from it a packet of version 1 and type 1 (audio) with that client's new sequence
-- number and the frame's channel, time, codec and bytes; the counters grow by the number of those
-- datagrams and of their bytes; and the buffer keeps its size.
pub do_send_audio_lem :
    (pkt : BroadcastPacket) (writes : GoString → Bool) (m m' : Manager) (q : Packet)
    (out : List (GoString × List ℕ))
    → IsFrame pkt
    → length m.packet_buf ≡ max_packet_size
    → do_send_audio pkt writes m ≡ (m', out)
    → (m'.clients ≡ advanced pkt m.clients)
      × Delivered q (header_size + length pkt.opus_data) out (planned pkt writes m.clients)
      × (m'.total_packets_sent ≡ m.total_packets_sent + length (planned pkt writes m.clients))
      × (m'.total_bytes_sent
          ≡ m.total_bytes_sent
            + length (planned pkt writes m.clients) * (header_size + length pkt.opus_data))
      × (length m'.packet_buf ≡ max_packet_size)
do_send_audio_lem pkt writes m m' q out v size e =
    let b = send_all-Broadcast pkt writes m.clients q m.packet_buf v size in
    let sent = send_all pkt writes m.clients m.packet_buf in
    let count =
      total_length-Delivered q (header_size + length pkt.opus_data) sent.2
        (planned pkt writes m.clients) b.2 in
    let out_eq : sent.2 ≡ out = unfold do_send_audio in ap (λ r. r.1) e in
    let state : (do_send_audio pkt writes m).0 ≡ m' = ap (λ r. r.0) e in
    (
      ap (λ s. s.clients) (sym state) ∙ unfold do_send_audio in b.0,
      subst (λ o. Delivered q (header_size + length pkt.opus_data) o (planned pkt writes m.clients))
          out_eq b.2,
      ap (λ s. s.total_packets_sent) (sym state)
          ∙ unfold do_send_audio in ap (λ k. m.total_packets_sent + k) count.1,
      ap (λ s. s.total_bytes_sent) (sym state)
          ∙ unfold do_send_audio in ap (λ k. m.total_bytes_sent + k) count.0,
      ap length (ap (λ s. s.packet_buf) (sym state)) ∙ unfold do_send_audio in b.1,
    )
