-- ===== src/Stream/Queue.antt =====
-- internal/stream/manager.go: the queue between the audio pipeline and the sender.
use native.Mathlib.Decide.{dec_lt}
use soundswamp.Prelude.{
  ◌≤◌, ◌<◌, ◌≡◌, refl, ◌⊎◌, inl, inr, Bool, some, List, [], ◌∷◌, ◌++◌, arith, length, length-append,
}
use soundswamp.Prelude.Table.{GoString}
use soundswamp.Protocol.Packet.{max_payload_size}
use soundswamp.Codec
use soundswamp.Codec.{
  Sample, Encoder, EncoderConfig, sample_rate, new_encoder, encode, encode_samples,
}
use soundswamp.Codec.Frames.{length-encode, new_encoder_stereo}
use soundswamp.Stream.{
  Manager, BroadcastPacket, done, panic, send_audio, queue_capacity, do_send_audio, broadcast_step,
}

-- SendAudio on every frame: one of more than 4096 bytes panics; else it goes to the end of the queue
-- if fewer than 200 wait, and is dropped, with nothing changed, if 200 do. So the queue stays within its
-- capacity.
pub send_audio_lem :
    (pkt : BroadcastPacket) (m : Manager)
    → length m.broadcast_chan ≤ queue_capacity
    → ((max_payload_size < length pkt.opus_data) × (send_audio pkt m ≡ panic))
      ⊎ ((m' : Manager) × (length pkt.opus_data ≤ max_payload_size)
          × (send_audio pkt m ≡ done m')
          × (length m'.broadcast_chan ≤ queue_capacity)
          × (((length m.broadcast_chan < queue_capacity)
                × (m' ≡ record m { broadcast_chan = m.broadcast_chan ++ (pkt ∷ []) }))
              ⊎ ((length m.broadcast_chan ≡ queue_capacity) × (m' ≡ m))))
send_audio_lem pkt m h = elim (dec_lt max_payload_size (length pkt.opus_data)) [
  | yes large ↦ inl (large, unfold send_audio in ground arith)
  | no small ↦ elim (dec_lt (length m.broadcast_chan) queue_capacity) [
    | yes free ↦ inr (
      record m { broadcast_chan = m.broadcast_chan ++ (pkt ∷ []) },
      omega arith,
      unfold send_audio in ground arith,
      omega (arith, length-append m.broadcast_chan (pkt ∷ [])),
      inl (free, refl),
    )
    | no full ↦ inr (m, omega arith, unfold send_audio in ground arith, h, inr (omega arith, refl))
  ]
]

-- The frames that SendAudio took come out of the queue in their order: a round of the sender takes the
-- oldest, sends it, and leaves the rest waiting; there is no round while nothing waits.
pub broadcast_step_fifo :
    (writes : GoString → Bool) (m : Manager) (first : BroadcastPacket) (rest : List BroadcastPacket)
    → m.broadcast_chan ≡ first ∷ rest
    → broadcast_step writes m
        ≡ some (do_send_audio first writes (record m { broadcast_chan = rest }))
      × ((do_send_audio first writes (record m { broadcast_chan = rest })).0.broadcast_chan ≡ rest)
unfolding broadcast_step do_send_audio
broadcast_step_fifo writes m first rest e = (rw (e, broadcast_step), refl)

-- An encoder that NewEncoder accepts can make frames that SendAudio cannot take: at 40 ms and more in
-- stereo, and so at every such frame length that the encoder allows, a frame of the right size is
-- encoded and then makes SendAudio panic.
pub long_stereo_frame_panics :
    (f : Sample) (cfg : EncoderConfig) (e : Encoder) (pcm : List f.Carrier) (m : Manager)
    (pkt : BroadcastPacket)
    → new_encoder cfg ≡ Codec.ok e
    → cfg.channels ≡ 2
    → 40 ≤ cfg.frame_ms
    → encode f e pcm ≡ Codec.ok pkt.opus_data
    → send_audio pkt m ≡ panic
long_stereo_frame_panics f cfg e pcm m pkt made stereo long h =
    unfold send_audio in
    ground (arith, length-encode f e pcm pkt.opus_data h, new_encoder_stereo cfg e made stereo)
