-- ===== src/Pipeline/Frames.antt =====
-- cmd/soundswarm-server/main.go: the audio pipeline that main sets up takes every frame of the capture.
use mathlib.Core.Path.{subst}
use soundswamp.Prelude.{
  sym, ◌∙◌, ℕ, zero, suc, ◌+◌, ◌*◌, ◌/◌, ◌%◌, ◌≤◌, ◌<◌, ◌≡◌, refl, ◌∙◌, ◌⊎◌, inl, inr, true, false,
  some, List, [], ◌∷◌, if◌then◌else◌, arith, length, get_or, replicate, All,
}
use soundswamp.Prelude.Int.{ℤ}
use soundswamp.Protocol.Bytes.{IsBytes}
use soundswamp.Protocol.ChannelMask.{stereo_mix}
use soundswamp.Surround
use soundswamp.Surround.{
  ChannelLayout, layout_stereo, layout_51, layout_71, layout_for_channels, roomy, demux_loop,
  demux_into,
}
use soundswamp.Surround.Rows.{at, roomy-Room}
use soundswamp.Surround.Downmix.{downmix_to_stereo_into, downmix_to_stereo_into_lem}
use soundswamp.Surround.Demux.{demux_loop-shape, demux_loop-at}
use soundswamp.Codec.{Sample, Encoder}
use soundswamp.Stream.{Manager, BroadcastPacket, done, queue_capacity}
use soundswamp.Pipeline.{Mixing, send_channels, surround_frame, stereo_frame}
use soundswamp.Pipeline.Setup.{Pipeline, frame}
use soundswamp.Pipeline.Packets.{
  Shape, rows-roomy, rows-row_length, row_length-rows, queued, sample_packet, channel_packets,
  IsShort, encode_and_send-queued, send_channels-queued,
}

module _ (f : Sample) where
  -- A pipeline for a capture of so many channels: in surround an encoder, a buffer and a channel mask for
  -- each channel, and in stereo one encoder.
  pub record IsPipeline (channels : ℕ) (p : Pipeline f) : Type 0 where
    pub count : p.layout.channels ≡ channels
    pub masks : length p.layout.mapping ≡ channels
    pub mask_bytes : IsBytes p.layout.mapping
    pub few : channels ≤ 8
    pub parts :
        ((p.surround ≡ true)
          × (6 ≤ channels)
          × All (IsShort 1) p.encoders
          × (length p.encoders ≡ channels)
          × Shape channels 480 p.demux_bufs
          × (length p.stereo_buf ≡ 960))
        ⊎ ((p.surround ≡ false)
            × (channels ≡ 2)
            × (e : Encoder) × (p.encoders ≡ e ∷ [])
            × IsShort 2 e)

  -- What a frame puts into the queue, once it is demuxed.
  abbrev pub frame_packets : Pipeline f → List f.Carrier → ℤ → List BroadcastPacket
  frame_packets p inter ts =
      if p.surround
      then channel_packets f p.demux_bufs p.layout.mapping ts
      else sample_packet f inter stereo_mix ts ∷ []

  pub All-replicate : {A : Type 0} (P : A → Type 0) (n : ℕ) (a : A) → P a → All P (replicate n a)
  All-replicate P zero a h = tt
  All-replicate P (suc n) a h = (h, All-replicate P n a h)

  demux_into-ok :
      (n p : ℕ) (inter : List f.Carrier) (bufs : List (List f.Carrier))
      → 0 < n
      → length inter % n ≡ 0
      → n ≤ length bufs
      → length inter / n ≡ p
      → roomy n p bufs ≡ true
      → demux_into f.zero n inter bufs ≡ Surround.ok (demux_loop f.zero p n 0 inter bufs)
  demux_into-ok n p inter bufs some_channel even enough whole =
      subst
        (λ q.
          roomy n q bufs ≡ true
          → demux_into f.zero n inter bufs ≡ Surround.ok (demux_loop f.zero q n 0 inter bufs))
        whole (λ room. unfold demux_into in ground arith)

  demux_into-Shape :
      (n ch s : ℕ) (inter : List f.Carrier) (bufs : List (List f.Carrier))
      → 0 < n
      → length inter ≡ 480 * n
      → Shape n 480 bufs
      → ch < n
      → s < 480
      → (out : List (List f.Carrier)) × (demux_into f.zero n inter bufs ≡ Surround.ok out)
        × Shape n 480 out
        × (at f.zero out ch s ≡ get_or inter (s * n + ch) f.zero)
  demux_into-Shape n ch s inter bufs some_channel k v hc hs =
      let whole : length inter / n ≡ 480 = grind arith in
      let even : length inter % n ≡ 0 = grind arith in
      let roomy480 = rows-roomy n 480 bufs (omega (arith, v.count)) v.rows in
      let out = demux_loop f.zero 480 n 0 inter bufs in
      let size : length out ≡ length bufs = (demux_loop-shape f.zero 480 n 0 0 inter bufs).0 in
      (
        out,
        demux_into-ok n 480 inter bufs some_channel even (omega (arith, v.count)) whole roomy480,
        record {
          count = size ∙ v.count;
          rows = row_length-rows 480 out (λ c h.
              (demux_loop-shape f.zero 480 n 0 c inter bufs).1
              ∙ rows-row_length 480 c bufs v.rows (omega arith));
        },
        ground (
          arith,
          demux_loop-at f.zero 480 0 n 0 480 inter bufs ch s (omega arith) (omega arith)
              (omega arith) (roomy-Room n 480 bufs roomy480),
        ),
      )

module _ (f : Sample) (x : Mixing f) where
  -- A frame of the capture, taken by a pipeline that main sets up: in surround one packet for each channel,
  -- in the layout's order, with the channel's mask, the frame's timestamp and the channel's samples
  -- encoded, and in stereo one packet of the interleaved samples, goes to the end of the queue, as far as
  -- the queue has room; nothing else of the stream manager changes. Sample `s` of channel `ch` in a
  -- surround buffer is sample `s * channels + ch` of the frame.
  pub frame-queued :
      (channels ch s : ℕ) (p : Pipeline f) (inter : List f.Carrier) (ts : ℤ) (m : Manager)
      → IsPipeline f channels p
      → length inter ≡ 480 * channels
      → length m.broadcast_chan ≤ queue_capacity
      → ch < channels
      → s < 480
      → (p' : Pipeline f) × (frame f x inter ts p m
          ≡ some (p', queued (frame_packets f p' inter ts) m))
        × IsPipeline f channels p'
        × (p'.layout ≡ p.layout)
        × (p'.surround ≡ p.surround)
        × ((p.surround ≡ false)
            ⊎ (at f.zero p'.demux_bufs ch s ≡ get_or inter (s * channels + ch) f.zero))
  frame-queued channels ch s p inter ts m v k room hc hs = elim v.parts [
    | inl (surround, many, short, encoders, shape, stereo_size) ↦
        let (out, split, shape', sample) =
          demux_into-Shape f channels ch s inter p.demux_bufs (omega arith) k shape hc hs in
        let sent =
          send_channels-queued f p.encoders p.layout.mapping out ts m short shape'.rows
            (omega (arith, shape'.count)) (omega (arith, shape'.count, v.masks)) room in
        let first : length (get_or out 0 []) ≡ 480 =
          rows-row_length 480 0 out shape'.rows (omega (arith, shape'.count)) in
        let (mixed, downmixed, mixed_size, _, _) =
          downmix_to_stereo_into_lem f.zero x.add x.mul x.mix out p.layout p.stereo_buf 0
            (shape'.count ∙ sym v.count) (omega (arith, v.count))
            (λ c below.
              omega
                (arith, first, rows-row_length 480 c out shape'.rows (omega (arith, shape'.count))))
            (omega arith) in
        (
          record p { demux_bufs = out; stereo_buf = mixed },
          whole (surrounded out mixed split sent downmixed) surround,
          record {
            count = v.count;
            masks = v.masks;
            mask_bytes = v.mask_bytes;
            few = v.few;
            parts = inl (surround, many, short, encoders, shape', mixed_size ∙ stereo_size);
          },
          refl,
          refl,
          inr sample,
        )
    | inr (stereo, two, e, encoders, short) ↦
        let sent =
          encode_and_send-queued f 2 e inter stereo_mix ts m short (omega arith) (omega arith)
            room in
        (p, unfold frame stereo_frame in ground (arith, sent), v, refl, refl, inl stereo)
  ]
    where
      surrounded :
          (out : List (List f.Carrier)) (mixed : List f.Carrier)
          → demux_into f.zero channels inter p.demux_bufs ≡ Surround.ok out
          → send_channels f p.encoders p.layout.mapping out ts m
            ≡ done (queued (channel_packets f out p.layout.mapping ts) m)
          → downmix_to_stereo_into f.zero x.add x.mul x.mix out p.layout p.stereo_buf
            ≡ Surround.ok mixed
          → surround_frame f x p.encoders p.layout inter p.demux_bufs p.stereo_buf ts m
            ≡ done (out, mixed, queued (channel_packets f out p.layout.mapping ts) m)
      surrounded out mixed split sent downmixed =
          unfold surround_frame in rw (v.count, split, sent, downmixed, surround_frame)

      whole :
          {out : List (List f.Carrier)} {mixed : List f.Carrier}
          → surround_frame f x p.encoders p.layout inter p.demux_bufs p.stereo_buf ts m
            ≡ done (out, mixed, queued (channel_packets f out p.layout.mapping ts) m)
          → p.surround ≡ true
          → frame f x inter ts p m
            ≡ some (
              record p { demux_bufs = out; stereo_buf = mixed },
              queued
                  (frame_packets f (record p { demux_bufs = out; stereo_buf = mixed }) inter ts)
                  m,
            )
      whole sf surround = unfold frame in ground (arith, sf)
