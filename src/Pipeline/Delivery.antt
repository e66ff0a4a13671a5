-- ===== src/Pipeline/Delivery.antt =====
-- cmd/soundswarm-server/main.go with internal/stream: a captured frame on its way to the clients.
use soundswamp.Prelude.{
  ℕ, suc, ◌*◌, ◌≤◌, ◌<◌, ◌≡◌, refl, sym, ap, ◌∙◌, inl, inr, Bool, some, List, [], ◌∷◌, ◌++◌, take,
  arith, length, All, if◌then◌else◌,
}
use soundswamp.Prelude.Int.{ℤ, IsI64}
use soundswamp.Prelude.Table.{GoString}
use soundswamp.Protocol.Bytes.{IsBytes}
use soundswamp.Protocol.ChannelMask.{stereo_mix}
use soundswamp.Protocol.Packet.{Packet, max_packet_size}
use soundswamp.Codec.{Sample}
use soundswamp.Codec.Frames.{length-encode_samples, encode_samples-IsBytes}
use soundswamp.Stream.{Manager, queue_capacity}
use soundswamp.Stream.Send.{IsFrame}
use soundswamp.Stream.Drain.{drain, planned_all, Arrives, sender_drains}
use soundswamp.Pipeline.{Mixing}
use soundswamp.Pipeline.Setup.{Pipeline, frame}
use soundswamp.Pipeline.Packets.{take-all, queued, sample_packet, channel_packets}
use soundswamp.Pipeline.Frames.{IsPipeline, frame_packets, frame-queued}

module _ (f : Sample) where
  sample_packet-IsFrame :
      (buf : List f.Carrier) (ch : ℕ) (ts : ℤ)
      → length buf ≤ 2048
      → ch < 256
      → IsI64 ts
      → IsFrame (sample_packet f buf ch ts)
  sample_packet-IsFrame buf ch ts short mask time = record {
    data_bytes = encode_samples-IsBytes f buf;
    data_fits = omega (arith, length-encode_samples f buf);
    channel_byte = mask;
    timestamp_i64 = time;
    codec_byte = omega arith;
  }

  channel_packets-IsFrame :
      (bufs : List (List f.Carrier)) (mapping : List ℕ) (ts : ℤ)
      → All (λ row. length row ≡ 480) bufs
      → IsBytes mapping
      → IsI64 ts
      → All IsFrame (channel_packets f bufs mapping ts)
  channel_packets-IsFrame [] mapping ts rows masks time = tt
  channel_packets-IsFrame (buf ∷ bufs) [] ts rows masks time = tt
  channel_packets-IsFrame (buf ∷ bufs) (ch ∷ mapping) ts rows masks time = (
    sample_packet-IsFrame buf ch ts (omega (arith, rows.0)) masks.0 time,
    channel_packets-IsFrame bufs mapping ts rows.1 masks.1 time,
  )

  length-channel_packets :
      (bufs : List (List f.Carrier)) (mapping : List ℕ) (ts : ℤ)
      → length bufs ≡ length mapping
      → length (channel_packets f bufs mapping ts) ≡ length mapping
  length-channel_packets [] mapping ts h = h
  length-channel_packets (buf ∷ bufs) [] ts h = absurd (omega arith)
  length-channel_packets (buf ∷ bufs) (ch ∷ mapping) ts h =
      ap suc (length-channel_packets bufs mapping ts (omega arith))

  -- The packets of a frame fit the wire format; there is one for each channel, or just one.
  frame_packets-IsFrame :
      (channels : ℕ) (p : Pipeline f) (inter : List f.Carrier) (ts : ℤ)
      → IsPipeline f channels p
      → length inter ≡ 480 * channels
      → IsI64 ts
      → All IsFrame (frame_packets f p inter ts)
        × (length (frame_packets f p inter ts) ≡ (if p.surround then channels else 1))
  frame_packets-IsFrame channels p inter ts v k time = elim v.parts [
    | inl (surround, _, _, _, shape, _) ↦
        let count =
          length-channel_packets p.demux_bufs p.layout.mapping ts
            (omega (arith, shape.count, v.masks)) in
        rw surround (
          channel_packets-IsFrame p.demux_bufs p.layout.mapping ts shape.rows v.mask_bytes time,
          omega (arith, count, v.masks),
        )
    | inr (stereo, two, _, _, _) ↦
        rw stereo
          ((sample_packet-IsFrame inter stereo_mix ts (omega arith) (omega arith) time, tt), refl)
  ]

module _ (f : Sample) (x : Mixing f) where
  -- A frame of the capture that a pipeline of main's takes while nothing waits, followed by a round of the
  -- sender for each of its packets: nothing waits afterwards, and the datagrams that went out are, packet
  -- by packet, those for the active clients of its channel or of the stereo mix (all active ones, for a
  -- stereo packet) whose writes succeed, and Unmarshal reads back an audio packet with the client's next
  -- sequence number, the packet's channel, the frame's timestamp and the encoded samples.
  pub captured_frame-Arrives :
      (channels : ℕ) (p : Pipeline f) (inter : List f.Carrier) (ts : ℤ) (m : Manager)
      (ws : List (GoString → Bool)) (q : Packet)
      → IsPipeline f channels p
      → 0 < channels
      → length inter ≡ 480 * channels
      → IsI64 ts
      → m.broadcast_chan ≡ []
      → length m.packet_buf ≡ max_packet_size
      → length ws ≡ (if p.surround then channels else 1)
      → (p' : Pipeline f) × (m' : Manager) × (frame f x inter ts p m ≡ some (p', m'))
        × ((drain ws m').0.broadcast_chan ≡ [])
        × Arrives q (drain ws m').1 (planned_all (frame_packets f p' inter ts) ws m.clients)
  captured_frame-Arrives channels p inter ts m ws q v some_channel k time idle size rounds =
      let (p', e, v', _, same, _) =
        frame-queued f x channels 0 0 p inter ts m v k (omega (arith, ap length idle)) some_channel
          (omega arith) in
      let pkts = frame_packets f p' inter ts in
      let (fits, count) = frame_packets-IsFrame f channels p' inter ts v' k time in
      let width : (if p.surround then channels else 1) ≤ 8 = ground (arith, v.few) in
      let as_many : length ws ≡ length pkts =
        rounds ∙ sym (count ∙ ap (λ b. if b then channels else 1) same) in
      let few : length pkts ≤ queue_capacity = omega (arith, as_many, rounds, width) in
      let waiting : (queued pkts m).broadcast_chan ≡ pkts =
        ap (λ c. take queue_capacity (c ++ pkts)) idle ∙ take-all queue_capacity pkts few in
      let (empty, arrives, _, _) =
        sender_drains ws pkts (queued pkts m) q waiting fits size as_many in
      (p', queued pkts m, e, empty, arrives)
