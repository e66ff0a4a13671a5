-- ===== src/Pipeline.antt =====
-- cmd/soundswarm-server/main.go: runAudioPipeline, one captured frame at a time: the timestamps, and the
-- way of the samples through internal/surround, internal/codec and internal/stream. The capture device
-- and the clock are arguments.
pub mod Timing
pub mod Setup
pub mod Packets
pub mod Frames
pub mod Startup
pub mod Delivery
use soundswamp.Prelude.{
  ℕ, zero, suc, ◌+◌, ◌*◌, ◌/◌, Bool, true, false, Option, none, some, List, [], ◌∷◌, ◌==◌,
  if◌then◌else◌, length, get_elem?, get_or,
}
use soundswamp.Prelude.Int.{ℤ, pos, negsuc, ◌+ℤ◌, ◌-ℤ◌, ltb_ℤ, quot, wrap64}
use soundswamp.Protocol.ChannelMask.{stereo_mix}
use soundswamp.Protocol.CodecFlag.{pcm}
use soundswamp.Surround
use soundswamp.Surround.{ChannelLayout, demux_into}
use soundswamp.Surround.Downmix.{downmix_to_stereo_into}
use soundswamp.Codec
use soundswamp.Codec.{Sample, Encoder, encode}
use soundswamp.Stream.{Manager, BroadcastPacket, Outcome, done, panic, send_audio}

-- The two counters that the timestamps come from.
pub record Clockwork : Type 0 where
  pub total_samples_processed : ℤ
  pub pipeline_start_us : ℤ

abbrev add64 : ℤ → ℤ → ℤ
add64 a b = wrap64 (a +ℤ b)

abbrev sub64 : ℤ → ℤ → ℤ
sub64 a b = wrap64 (a -ℤ b)

-- a * k for a constant k, exactly.
times : ℤ → ℕ → ℤ
times (pos n) k = pos (n * k)
times (negsuc n) k = pos 0 -ℤ pos ((n + 1) * k)

-- The time of the next sample by the counters.
unfoldable pub sample_time : ℕ → Clockwork → ℤ
unfolding times
sample_time rate c =
    add64 c.pipeline_start_us
      (wrap64 (quot (wrap64 (times c.total_samples_processed 1000000)) rate))

-- The timestamp of a captured frame of `n` samples over `channels` channels, and the counters after it.
unfoldable pub tick : ℕ → ℕ → ℕ → ℤ → Clockwork → ℤ × Clockwork
unfolding sample_time
tick rate channels n now c =
    let capture_ts = sample_time rate c in
    let delta = sub64 now capture_ts in
    let total = add64 c.total_samples_processed (pos (n / channels)) in
    if ltb_ℤ (pos 100000) delta
    then (
      add64 capture_ts delta,
      record {
        total_samples_processed = total;
        pipeline_start_us = add64 c.pipeline_start_us delta;
      },
    )
    else if ltb_ℤ delta (negsuc 99999)
    then (
      add64 capture_ts delta,
      record {
        total_samples_processed = total;
        pipeline_start_us = add64 c.pipeline_start_us delta;
      },
    )
    else if ltb_ℤ (pos 5000) delta
    then (
      capture_ts,
      record {
        total_samples_processed = total;
        pipeline_start_us = add64 c.pipeline_start_us (pos 20);
      },
    )
    else if ltb_ℤ delta (negsuc 4999)
    then (
      capture_ts,
      record {
        total_samples_processed = total;
        pipeline_start_us = sub64 c.pipeline_start_us (pos 20);
      },
    )
    else (
      capture_ts,
      record { total_samples_processed = total; pipeline_start_us = c.pipeline_start_us },
    )

module _ (f : Sample) where
  -- Encode one buffer and queue it; an encoding error is logged and skipped.
  unfoldable pub encode_and_send : Encoder → List f.Carrier → ℕ → ℤ → Manager → Outcome Manager
  encode_and_send e buf channel capture_ts m = elim (encode f e buf) [
    | Codec.err x ↦ done m
    | Codec.panic ↦ panic
    | Codec.ok bytes ↦
        send_audio
          (record {
            opus_data = bytes;
            channel = channel;
            capture_timestamp = capture_ts;
            codec_flag = pcm;
          })
          m
  ]

  -- The loop over the demuxed buffers, with the encoder and the channel mask of each index. An index
  -- that one of them lacks panics.
  unfoldable pub send_channels :
      List Encoder → List ℕ → List (List f.Carrier) → ℤ → Manager → Outcome Manager
  unfolding encode_and_send
  send_channels encoders mapping [] capture_ts m = done m
  send_channels [] mapping (buf ∷ bufs) capture_ts m = panic
  send_channels (e ∷ es) [] (buf ∷ bufs) capture_ts m = panic
  send_channels (e ∷ es) (ch ∷ chs) (buf ∷ bufs) capture_ts m =
      elim (encode_and_send e buf ch capture_ts m) [
        | panic ↦ panic
        | done m' ↦ send_channels es chs bufs capture_ts m'
      ]

  -- The stereo or mono branch.
  unfoldable pub stereo_frame : Encoder → List f.Carrier → ℤ → Manager → Outcome Manager
  unfolding encode_and_send
  stereo_frame e interleaved capture_ts m = encode_and_send e interleaved stereo_mix capture_ts m

-- float32 as the downmix uses it: addition, multiplication, and 0.707, which is its coefficient for the
-- centre and for the surround channels.
pub record Mixing (f : Sample) : Type 0 where
  pub add : f.Carrier → f.Carrier → f.Carrier
  pub mul : f.Carrier → f.Carrier → f.Carrier
  pub mix : f.Carrier

module _ (f : Sample) (x : Mixing f) where
  -- The surround branch for one captured frame, with the buffers that the demuxer and the downmix write to.
  unfoldable pub surround_frame :
      List Encoder
      → ChannelLayout
      → List f.Carrier
      → List (List f.Carrier)
      → List f.Carrier
      → ℤ
      → Manager
      → Outcome (List (List f.Carrier) × List f.Carrier × Manager)
  surround_frame encoders layout interleaved demux_bufs stereo_buf capture_ts m =
      elim (demux_into f.zero layout.channels interleaved demux_bufs) [
        | Surround.err e ↦ done (demux_bufs, stereo_buf, m)
        | Surround.panic ↦ panic
        | Surround.ok bufs ↦ elim (send_channels f encoders layout.mapping bufs capture_ts m) [
          | panic ↦ panic
          | done m' ↦
              elim (downmix_to_stereo_into f.zero x.add x.mul x.mix bufs layout stereo_buf) [
                | Surround.err e ↦ done (bufs, stereo_buf, m')
                | Surround.panic ↦ panic
                | Surround.ok mixed ↦ done (bufs, mixed, m')
              ]
        ]
      ]
