-- ===== src/Pipeline/Setup.antt =====
-- cmd/soundswarm-server/main.go: what main makes of the capture's format for the audio pipeline, and the
-- rounds of runAudioPipeline.
use soundswamp.Prelude.{
  ◌*◌, ℕ, Bool, true, false, Option, none, some, List, [], ◌∷◌, ltb, if◌then◌else◌, length,
  replicate,
}
use soundswamp.Prelude.Int.{ℤ}
use soundswamp.Prelude.Table.{GoString}
use soundswamp.Surround
use soundswamp.Surround.{ChannelLayout, layout_for_channels}
use soundswamp.Codec
use soundswamp.Codec.{Sample, EncoderConfig, Encoder, default_encoder_config, new_encoder}
use soundswamp.Stream.{Manager, done, panic, broadcast_step}
use soundswamp.Pipeline.{Mixing, Clockwork, tick, surround_frame, stereo_frame}

-- What runAudioPipeline keeps besides its counters.
pub record Pipeline (f : Sample) : Type 0 where
  pub layout : ChannelLayout
  pub surround : Bool
  pub encoders : List Encoder
  pub demux_bufs : List (List f.Carrier)
  pub stereo_buf : List f.Carrier

-- encConfig, for a sample rate and the channels of one encoder.
abbrev pub encoder_config : ℕ → ℕ → EncoderConfig
encoder_config rate channels =
    let c : EncoderConfig = default_encoder_config in record c { rate = rate; channels = channels }

module _ (f : Sample) where
  -- The layout, the demuxer and the encoders of main, with the buffers of runAudioPipeline; `none` is an
  -- exit of the program.
  unfoldable pub setup : ℕ → ℕ → Option (Pipeline f)
  setup rate channels = elim (layout_for_channels channels) [
    | Surround.err x ↦ none
    | Surround.panic ↦ none
    | Surround.ok layout ↦
        if ltb 2 channels
        then (elim (new_encoder (encoder_config rate 1)) [
          | Codec.err x ↦ none
          | Codec.panic ↦ none
          | Codec.ok e ↦ some (record {
            layout = layout;
            surround = true;
            encoders = replicate channels e;
            demux_bufs = replicate channels (replicate e.frame_samples f.zero);
            stereo_buf = replicate (e.frame_samples * 2) f.zero;
          })
        ])
        else (elim (new_encoder (encoder_config rate channels)) [
          | Codec.err x ↦ none
          | Codec.panic ↦ none
          | Codec.ok e ↦ some (record {
            layout = layout;
            surround = false;
            encoders = e ∷ [];
            demux_bufs = [];
            stereo_buf = [];
          })
        ])
  ]

module _ (f : Sample) where
  -- The pipeline and the sender: a frame that was read at a time of the clock, or a round of the sender.
  pub data Turn : Type 0 where
    captured : List f.Carrier → ℤ → Turn
    sender : (GoString → Bool) → Turn

module _ (f : Sample) (x : Mixing f) where
  -- One captured frame; `none` is a panic.
  unfoldable pub frame : List f.Carrier → ℤ → Pipeline f → Manager → Option (Pipeline f × Manager)
  frame interleaved capture_ts p m =
      if p.surround
      then (elim (surround_frame f x p.encoders p.layout interleaved p.demux_bufs p.stereo_buf
          capture_ts m) [
            | panic ↦ none
            | done (bufs, mixed, m') ↦ some (record p { demux_bufs = bufs; stereo_buf = mixed }, m')
          ])
      else elim p.encoders [
        | [] ↦ none
        | e ∷ es ↦ elim (stereo_frame f e interleaved capture_ts m) [
          | panic ↦ none
          | done m' ↦ some (p, m')
        ]
      ]

  -- Turns in any order; `none` is a panic.
  unfoldable pub run_pipeline :
      ℕ → ℕ → List (Turn f) → Clockwork → Pipeline f → Manager → Option (Pipeline f × Manager)
  unfolding frame
  run_pipeline rate channels [] c p m = some (p, m)
  run_pipeline rate channels (captured interleaved now ∷ ts) c p m =
      let (capture_ts, c') = tick rate channels (length interleaved) now c in
      elim (frame interleaved capture_ts p m) [
        | none ↦ none
        | some (p', m') ↦ run_pipeline rate channels ts c' p' m'
      ]
  run_pipeline rate channels (sender writes ∷ ts) c p m = elim (broadcast_step writes m) [
    | none ↦ run_pipeline rate channels ts c p m
    | some (m', out) ↦ run_pipeline rate channels ts c p m'
  ]
