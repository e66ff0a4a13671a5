-- ===== src/Pipeline/Startup.antt =====
-- cmd/soundswarm-server/main.go: which pipelines main sets up, and any history of one.
use mathlib.Core.Path.{subst}
use native.Mathlib.Decide.{ℕ_discrete}
use soundswamp.Prelude.{
  ℕ, ◌*◌, ◌≤◌, ◌≡◌, ◌≢◌, refl, sym, ◌⊎◌, inl, inr, true, false, none, some, [], ◌∷◌, arith, length,
  replicate, length-replicate,
}
use soundswamp.Protocol.Bytes.{IsBytes}
use soundswamp.Surround
use soundswamp.Surround.{
  ChannelLayout, layout_stereo, layout_51, layout_71, layout_for_channels, roomy, demux_loop,
  demux_into,
}
use soundswamp.Codec.{Sample, Encoder, new_encoder, frame_samples_for}
use soundswamp.Pipeline.Setup.{Pipeline, setup, encoder_config}
use soundswamp.Pipeline.Setup.{Turn, captured, sender}
use soundswamp.Pipeline.Packets.{IsShort}
use soundswamp.Pipeline.Frames.{IsPipeline, All-replicate}

module _ (f : Sample) where
  abbrev short_encoder : ℕ → Encoder
  short_encoder channels = record { config = encoder_config 48000 channels; frame_samples = 480 }

  setup_surround :
      (channels : ℕ) (layout : ChannelLayout)
      → layout_for_channels channels ≡ Surround.ok layout
      → layout.channels ≡ channels
      → length layout.mapping ≡ channels
      → IsBytes layout.mapping
      → 6 ≤ channels
      → channels ≤ 8
      → (p : Pipeline f) × (setup f 48000 channels ≡ some p) × IsPipeline f channels p
  setup_surround channels layout e count masks mask_bytes many few = (
    record {
      layout = layout;
      surround = true;
      encoders = replicate channels (short_encoder 1);
      demux_bufs = replicate channels (replicate 480 f.zero);
      stereo_buf = replicate 960 f.zero;
    },
    unfold setup new_encoder frame_samples_for in ground (arith, e, many),
    record {
      count = count;
      masks = masks;
      mask_bytes = mask_bytes;
      few = few;
      parts = inl (
        refl,
        many,
        All-replicate f (IsShort 1) channels (short_encoder 1)
            (record { samples = refl; width = refl }),
        length-replicate channels (short_encoder 1),
        record {
          count = length-replicate channels (replicate 480 f.zero);
          rows =
              All-replicate f (λ row. length row ≡ 480) channels (replicate 480 f.zero)
                (length-replicate 480 f.zero);
        },
        length-replicate 960 f.zero,
      );
    },
  )

  abbrev pub stereo_pipeline : Pipeline f
  stereo_pipeline = record {
    layout = layout_stereo;
    surround = false;
    encoders = short_encoder 2 ∷ [];
    demux_bufs = [];
    stereo_buf = [];
  }

  pub setup_stereo : (setup f 48000 2 ≡ some stereo_pipeline) × IsPipeline f 2 stereo_pipeline
  setup_stereo = (
    unfold setup layout_for_channels new_encoder frame_samples_for in refl,
    record {
      count = refl;
      masks = refl;
      mask_bytes = omega arith;
      few = omega arith;
      parts = inr (refl, refl, short_encoder 2, refl, record { samples = refl; width = refl });
    },
  )

  setup-fails :
      (rate channels : ℕ)
      → (rate ≢ 48000) ⊎ ((channels ≢ 2) × (channels ≢ 6) × (channels ≢ 8))
      → setup f rate channels ≡ none
  unfolding setup layout_for_channels new_encoder
  setup-fails rate channels h = ground arith

  -- main sets a pipeline up just for a capture of 48 kHz with 2, 6 or 8 channels, and exits for any other.
  -- In surround it has an encoder of 10 ms, a buffer of 480 samples and a channel mask for each channel, and
  -- in stereo one encoder of 10 ms.
  pub setup_lem :
      (rate channels : ℕ)
      → ((rate ≡ 48000)
          × ((channels ≡ 2) ⊎ (channels ≡ 6) ⊎ (channels ≡ 8))
          × ((p : Pipeline f) × (setup f rate channels ≡ some p) × IsPipeline f channels p))
        ⊎ (((rate ≢ 48000) ⊎ ((channels ≢ 2) × (channels ≢ 6) × (channels ≢ 8)))
            × (setup f rate channels ≡ none))
  setup_lem rate channels = elim (ℕ_discrete rate 48000) [
    | no other ↦ inr (inl other, setup-fails rate channels (inl other))
    | yes at_48k ↦ elim (ℕ_discrete channels 2) [
      | yes e ↦
          inl (at_48k, inl e, moved at_48k e (stereo_pipeline, setup_stereo.0, setup_stereo.1))
      | no not_2 ↦ elim (ℕ_discrete channels 6) [
        | yes e ↦ inl (
          at_48k,
          inr (inl e),
          moved at_48k e (
              setup_surround 6 layout_51 (unfold layout_for_channels in refl) refl refl
                (omega arith) (omega arith) (omega arith)),
        )
        | no not_6 ↦ elim (ℕ_discrete channels 8) [
          | yes e ↦ inl (
            at_48k,
            inr (inr e),
            moved at_48k e (
                setup_surround 8 layout_71 (unfold layout_for_channels in refl) refl refl
                  (omega arith) (omega arith) (omega arith)),
          )
          | no not_8 ↦
              inr (inr (not_2, not_6, not_8), setup-fails rate channels (inr (not_2, not_6, not_8)))
        ]
      ]
    ]
  ]
    where
      moved :
          {known : ℕ}
          → rate ≡ 48000
          → channels ≡ known
          → (p : Pipeline f) × (setup f 48000 known ≡ some p) × IsPipeline f known p
          → (p : Pipeline f) × (setup f rate channels ≡ some p) × IsPipeline f channels p
      moved e1 e2 made =
          subst (λ r. (p : Pipeline f) × (setup f r channels ≡ some p) × IsPipeline f channels p)
            (sym e1)
            (subst (λ c. (p : Pipeline f) × (setup f 48000 c ≡ some p) × IsPipeline f c p) (sym e2)
              made)

  -- A frame as Read gives it: 480 samples of each channel.
  abbrev pub IsTurn : ℕ → Turn f → Type 0
  IsTurn channels (captured inter now) = length inter ≡ 480 * channels
  IsTurn channels (sender writes) = Unit {0}
