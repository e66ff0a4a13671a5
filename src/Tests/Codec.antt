-- ===== src/Tests/Codec.antt =====
-- internal/codec/opus.go: frames of two samples.
use soundswamp.Prelude.{
  ℕ, ◌*◌, ◌/◌, ◌%◌, ◌^◌, ◌≤◌, ◌<◌, ◌≡◌, ◌≢◌, refl, ◌⊎◌, true, List, [], ◌∷◌, ◌++◌, map, ltb, arith,
  length, drop,
}
use soundswamp.Prelude.Table.{string_eq}
use soundswamp.Protocol.Bytes.{IsBytes}
use soundswamp.Codec.{
  Sample, Encoder, EncoderConfig, Decoder, ok, err, wrong_sample_count, new_encoder,
  frame_samples_for, encode, encode_samples, decode, clamp,
}
use soundswamp.Codec.Frames.{set_all, encode_total, decode-encode, LimitedAll}

-- Samples that are their int16 patterns.
abbrev toy : Sample
toy = record {
  Carrier = ℕ;
  zero = 0;
  one = 32767;
  minus_one = 0;
  lt = ltb;
  to_int16 = λ s. s % 2 ^ 16;
  of_int16 = λ u. u;
}

abbrev stereo_config : ℕ → EncoderConfig
stereo_config ms = record {
  rate = 48000;
  channels = 2;
  bitrate = 128000;
  frame_ms = ms;
  fec = true;
  vbr = true;
}

toy_small : (s : ℕ) → s % 2 ^ 16 < 2 ^ 16
toy_small s = omega arith

-- Encoders of frames with one sample and with 480 samples for each of two channels.
abbrev tiny : Encoder
tiny = record { config = stereo_config 10; frame_samples = 1 }

abbrev usual : Encoder
usual = record { config = stereo_config 10; frame_samples = 480 }

decode-encode_example :
    let f : Sample = toy in
    let d : Decoder = record { rate = 48000; channels = 2 } in
    let ss : List f.Carrier = 7 ∷ 40000 ∷ [] in
    let pcm : List f.Carrier = 0 ∷ 0 ∷ 5 ∷ [] in
    let bytes : List ℕ = 7 ∷ 0 ∷ 255 ∷ 127 ∷ [] in
    (cs : List f.Carrier) × LimitedAll f ss cs
    × (decode f d bytes pcm
        ≡ ok (
          length ss / d.channels,
          map (λ c. f.of_int16 (f.to_int16 c)) cs ++ drop (length ss) pcm,
        ))
unfolding encode encode_samples clamp
decode-encode_example =
    decode-encode toy tiny (record { rate = 48000; channels = 2 }) (7 ∷ 40000 ∷ []) (0 ∷ 0 ∷ 5 ∷ [])
      (7 ∷ 0 ∷ 255 ∷ 127 ∷ []) toy_small ((omega arith)) (omega arith) refl

encode_total_example :
    let f : Sample = toy in
    let e : Encoder = usual in
    let mss : List ℕ = 5 ∷ [] in
    let pcm : List f.Carrier = 1 ∷ 2 ∷ [] in
    ((length pcm ≢ (set_all mss e).frame_samples * (set_all mss e).config.channels)
      × (encode f (set_all mss e) pcm ≡ err wrong_sample_count))
    ⊎ ((bytes : List ℕ) × (length pcm
          ≡ (set_all mss e).frame_samples * (set_all mss e).config.channels)
        × (encode f (set_all mss e) pcm ≡ ok bytes)
        × (length bytes ≡ 2 * length pcm)
        × (length bytes ≤ 11520)
        × IsBytes bytes)
unfolding new_encoder frame_samples_for
encode_total_example = encode_total toy (stereo_config 10) usual (5 ∷ []) (1 ∷ 2 ∷ []) refl
