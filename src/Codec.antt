-- ===== src/Codec.antt =====
-- internal/codec/opus.go: the fallback codec, which carries samples as little-endian int16. The float32
-- operations that it uses are a parameter.
pub mod Frames
use soundswamp.Prelude.{
  ℕ, zero, suc, ◌+◌, ◌*◌, ◌/◌, ◌%◌, ◌^◌, Bool, true, false, ◌||◌, Option, none, some, List, [], ◌∷◌,
  ◌++◌, ◌==◌, not, ltb, if◌then◌else◌, length, get_or, set, map, copy, replicate, take, drop,
}

-- float32 as the codec uses it: the bounds 1.0 and -1.0, `<`, int16(sample * 32767) as the 16 bits of
-- its pattern, float32(s16) / 32767 from such a pattern, and 0.
pub record Sample : Type 1 where
  pub Carrier : Type 0
  pub zero : Carrier
  pub one : Carrier
  pub minus_one : Carrier
  pub lt : Carrier → Carrier → Bool
  pub to_int16 : Carrier → ℕ
  pub of_int16 : ℕ → Carrier

pub data Error : Type 0 where
  bad_sample_rate bad_channels bad_frame_duration wrong_sample_count odd_length pcm_too_small :
      Error

pub data Result {ℓ} (A : Type ℓ) : Type ℓ where
  ok : A → Result A
  err : Error → Result A
  panic : Result A

abbrev pub sample_rate : ℕ
sample_rate = 48000

unfoldable pub frame_samples_for : ℕ → ℕ
frame_samples_for frame_ms = sample_rate * frame_ms / 1000

pub record EncoderConfig : Type 0 where
  pub rate : ℕ
  pub channels : ℕ
  pub bitrate : ℕ
  pub frame_ms : ℕ
  pub fec : Bool
  pub vbr : Bool

abbrev pub default_encoder_config : EncoderConfig
default_encoder_config = record {
  rate = sample_rate;
  channels = 2;
  bitrate = 128000;
  frame_ms = 10;
  fec = true;
  vbr = true;
}

pub record Encoder : Type 0 where
  pub config : EncoderConfig
  pub frame_samples : ℕ

abbrev pub valid_duration : ℕ → Bool
valid_duration ms = ms == 5 || (ms == 10 || (ms == 20 || (ms == 40 || ms == 60)))

unfoldable pub new_encoder : EncoderConfig → Result Encoder
unfolding frame_samples_for
new_encoder cfg =
    if not (cfg.rate == sample_rate)
    then err bad_sample_rate
    else if not (cfg.channels == 1 || cfg.channels == 2)
    then err bad_channels
    else if not (valid_duration cfg.frame_ms)
    then err bad_frame_duration
    else ok (record { config = cfg; frame_samples = frame_samples_for cfg.frame_ms })

-- SetFrameMs.
unfoldable pub set_frame_ms : ℕ → Encoder → Result Encoder
unfolding frame_samples_for
set_frame_ms ms e =
    if not (valid_duration ms)
    then err bad_frame_duration
    else ok (record {
      config = let c : EncoderConfig = e.config in record c { frame_ms = ms };
      frame_samples = frame_samples_for ms;
    })

-- The capacity of a buffer of pcmEncodePool.
abbrev pub pool_capacity : ℕ
pool_capacity = 16384

pub record Decoder : Type 0 where
  pub rate : ℕ
  pub channels : ℕ

unfoldable pub new_decoder : ℕ → ℕ → Result Decoder
new_decoder rate channels =
    if not (rate == sample_rate)
    then err bad_sample_rate
    else if not (channels == 1 || channels == 2)
    then err bad_channels
    else ok (record { rate = rate; channels = channels })

module _ (f : Sample) where
  open f use {Carrier, one, minus_one, lt, to_int16, of_int16}

  unfoldable pub clamp : Carrier → Carrier
  clamp sample = if lt one sample then one else if lt sample minus_one then minus_one else sample

  -- The bytes that the loop of Encode puts for the samples, in order.
  unfoldable pub encode_samples : List Carrier → List ℕ
  unfolding clamp
  encode_samples [] = []
  encode_samples (s ∷ ss) =
      to_int16 (clamp s) % 2 ^ 8 ∷ to_int16 (clamp s) / 2 ^ 8 % 2 ^ 8 ∷ encode_samples ss

  -- Encode, with a buffer of the pool: to slice it beyond its capacity panics.
  unfoldable pub encode : Encoder → List Carrier → Result (List ℕ)
  unfolding encode_samples
  encode e pcm =
      if not (length pcm == e.frame_samples * e.config.channels)
      then err wrong_sample_count
      else if ltb pool_capacity (length pcm * 2)
      then panic
      else ok (encode_samples pcm)

  -- The samples that the loop of Decode reads, in order.
  unfoldable pub decode_samples : List ℕ → List Carrier
  decode_samples [] = []
  decode_samples (lo ∷ []) = []
  decode_samples (lo ∷ hi ∷ bs) = of_int16 (lo + hi * 2 ^ 8) ∷ decode_samples bs

  -- Decode: the count per channel, and the buffer that it wrote to.
  unfoldable pub decode : Decoder → List ℕ → List Carrier → Result (ℕ × List Carrier)
  unfolding decode_samples
  decode d bytes pcm =
      if not (length bytes % 2 == 0)
      then err odd_length
      else let samples = length bytes / 2 in
        if ltb (length pcm) samples
        then err pcm_too_small
        else if d.channels == 0
        then panic
        else ok (samples / d.channels, copy pcm (decode_samples bytes))

  -- DecodePLC.
  unfoldable pub decode_plc : Decoder → List Carrier → Result (ℕ × List Carrier)
  decode_plc d pcm =
      if d.channels == 0 then panic else ok (length pcm / d.channels, replicate (length pcm) f.zero)
