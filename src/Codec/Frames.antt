-- ===== src/Codec/Frames.antt =====
-- internal/codec/opus.go: sizes of frames, and what Decode gives for what Encode made.
use native.Mathlib.Decide.{ℕ_discrete}
use soundswamp.Prelude.{
  ℕ, suc, ◌+◌, ◌*◌, ◌/◌, ◌%◌, ◌^◌, ◌≤◌, ◌<◌, ◌≡◌, ◌≢◌, true, false, Bool-cases, refl, ap, ap₂, ◌⊎◌,
  inl, inr, List, [], ◌∷◌, ◌++◌, arith, length, map, drop, copy-eq-append,
}
use soundswamp.Protocol.Bytes.{IsBytes}
use soundswamp.Codec.{
  Sample, Result, ok, err, panic, EncoderConfig, Encoder, new_encoder, set_frame_ms, sample_rate,
  wrong_sample_count, Decoder, clamp, encode_samples, encode, decode_samples, decode,
}

-- What NewEncoder establishes: 48 kHz, one or two channels, a frame of 5, 10, 20, 40 or 60 ms, and 48
-- samples for each of its milliseconds.
pub record IsEncoder (e : Encoder) : Type 0 where
  pub rate_48k : e.config.rate ≡ sample_rate
  pub mono_or_stereo : (e.config.channels ≡ 1) ⊎ (e.config.channels ≡ 2)
  pub samples : e.frame_samples ≡ 48 * e.config.frame_ms
  pub short : e.config.frame_ms ≤ 60
  pub nonempty : 0 < e.config.frame_ms

new_encoder-IsEncoder : (cfg : EncoderConfig) (e : Encoder) → new_encoder cfg ≡ ok e → IsEncoder e
unfolding new_encoder
new_encoder-IsEncoder cfg e h = record {
  rate_48k = ground arith;
  mono_or_stereo = ground arith;
  samples = ground arith;
  short = ground arith;
  nonempty = ground arith;
}

set_frame_ms-IsEncoder :
    (ms : ℕ) (e e' : Encoder) → IsEncoder e → set_frame_ms ms e ≡ ok e' → IsEncoder e'
unfolding set_frame_ms
set_frame_ms-IsEncoder ms e e' v h = record {
  rate_48k = ground arith;
  mono_or_stereo = ground arith;
  samples = ground arith;
  short = ground arith;
  nonempty = ground arith;
}

-- A refused call leaves the encoder as it was.
abbrev after : Result Encoder → Encoder → Encoder
after (ok e') e = e'
after (err x) e = e
after panic e = e

after-IsEncoder :
    (r : Result Encoder) (e : Encoder)
    → IsEncoder e
    → ((e' : Encoder) → r ≡ ok e' → IsEncoder e')
    → IsEncoder (after r e)
after-IsEncoder (ok e') e v h = h e' refl
after-IsEncoder (err x) e v h = v
after-IsEncoder panic e v h = v

-- The encoder after some calls of SetFrameMs.
unfoldable pub set_all : List ℕ → Encoder → Encoder
set_all [] e = e
set_all (ms ∷ mss) e = set_all mss (after (set_frame_ms ms e) e)

set_all-IsEncoder : (mss : List ℕ) (e : Encoder) → IsEncoder e → IsEncoder (set_all mss e)
unfolding set_all
set_all-IsEncoder [] e v = v
set_all-IsEncoder (ms ∷ mss) e v =
    set_all-IsEncoder mss (after (set_frame_ms ms e) e)
      (after-IsEncoder (set_frame_ms ms e) e v (λ e' h. set_frame_ms-IsEncoder ms e e' v h))

module _ (f : Sample) where
  open f use {Carrier, one, minus_one, lt, to_int16, of_int16}

  pub length-encode_samples : (ss : List Carrier) → length (encode_samples f ss) ≡ 2 * length ss
  unfolding encode_samples
  length-encode_samples [] = omega arith
  length-encode_samples (s ∷ ss) = omega (arith, length-encode_samples ss)

  pub encode_samples-IsBytes : (ss : List Carrier) → IsBytes (encode_samples f ss)
  unfolding encode_samples
  encode_samples-IsBytes [] = tt
  encode_samples-IsBytes (s ∷ ss) = (omega arith, (omega arith, encode_samples-IsBytes ss))

  -- An encoder from NewEncoder, after any calls of SetFrameMs, never panics: a frame of the wrong
  -- number of samples is an error, and one of the right number gives two bytes for each sample, at most
  -- 11520, which fits the 16384 of a pooled buffer.
  pub encode_total :
      (cfg : EncoderConfig) (e : Encoder) (mss : List ℕ) (pcm : List Carrier)
      → new_encoder cfg ≡ ok e
      → ((length pcm ≢ (set_all mss e).frame_samples * (set_all mss e).config.channels)
          × (encode f (set_all mss e) pcm ≡ err wrong_sample_count))
        ⊎ ((bytes : List ℕ) × (length pcm
              ≡ (set_all mss e).frame_samples * (set_all mss e).config.channels)
            × (encode f (set_all mss e) pcm ≡ ok bytes)
            × (length bytes ≡ 2 * length pcm)
            × (length bytes ≤ 11520)
            × IsBytes bytes)
  encode_total cfg e mss pcm h =
      total (set_all mss e) (set_all-IsEncoder mss e (new_encoder-IsEncoder cfg e h))
    where
      total :
          (e' : Encoder)
          → IsEncoder e'
          → ((length pcm ≢ e'.frame_samples * e'.config.channels)
              × (encode f e' pcm ≡ err wrong_sample_count))
            ⊎ ((bytes : List ℕ) × (length pcm ≡ e'.frame_samples * e'.config.channels)
                × (encode f e' pcm ≡ ok bytes)
                × (length bytes ≡ 2 * length pcm)
                × (length bytes ≤ 11520)
                × IsBytes bytes)
      total e' v = elim (ℕ_discrete (length pcm) (e'.frame_samples * e'.config.channels)) [
        | no wrong ↦ inl (wrong, unfold encode in ground arith)
        | yes right ↦
            let bound : length pcm ≤ 5760 =
              ground (arith, v.samples, v.short, v.mono_or_stereo, right) in
            inr (
              encode_samples f pcm,
              right,
              unfold encode in ground arith,
              length-encode_samples pcm,
              omega (arith, length-encode_samples pcm),
              encode_samples-IsBytes pcm,
            )
      ]

  -- A sample above 1 becomes 1, one below -1 becomes -1, and any other stays.
  abbrev pub Limited : Carrier → Carrier → Type 0
  Limited s c =
      ((lt one s ≡ true) × (c ≡ one))
      ⊎ ((lt one s ≡ false) × (lt s minus_one ≡ true) × (c ≡ minus_one))
      ⊎ ((lt one s ≡ false) × (lt s minus_one ≡ false) × (c ≡ s))

  abbrev pub LimitedAll : List Carrier → List Carrier → Type 0
  LimitedAll [] [] = Unit {0}
  LimitedAll [] (c ∷ cs) = ⊥
  LimitedAll (s ∷ ss) [] = ⊥
  LimitedAll (s ∷ ss) (c ∷ cs) = Limited s c × LimitedAll ss cs

  clamp-Limited : (s : Carrier) → Limited s (clamp f s)
  unfolding clamp
  clamp-Limited s = elim (Bool-cases (lt one s)) [
    | inl above ↦ inl (above, rw above refl)
    | inr here ↦ elim (Bool-cases (lt s minus_one)) [
      | inl below ↦ inr (inl (here, below, rw (here, below) refl))
      | inr there ↦ inr (inr (here, there, rw (here, there) refl))
    ]
  ]

  clamp-LimitedAll : (ss : List Carrier) → LimitedAll ss (map (clamp f) ss)
  clamp-LimitedAll [] = tt
  clamp-LimitedAll (s ∷ ss) = (clamp-Limited s, clamp-LimitedAll ss)

  decode-encode_samples :
      (ss : List Carrier)
      → ((s : Carrier) → to_int16 s < 2 ^ 16)
      → decode_samples f (encode_samples f ss) ≡ map (λ c. of_int16 (to_int16 c)) (map (clamp f) ss)
  unfolding decode_samples encode_samples
  decode-encode_samples [] small = refl
  decode-encode_samples (s ∷ ss) small =
      let whole : to_int16 (clamp f s) % 2 ^ 8 + to_int16 (clamp f s) / 2 ^ 8 % 2 ^ 8 * 2 ^ 8
          ≡ to_int16 (clamp f s) =
        omega (arith, small (clamp f s)) in
      ap₂ ◌∷◌ (ap of_int16 whole) (decode-encode_samples ss small)

  length-map_samples :
      (xs : List Carrier) → length (map (λ c. of_int16 (to_int16 c)) (map (clamp f) xs)) ≡ length xs
  length-map_samples [] = refl
  length-map_samples (x ∷ xs) = ap suc (length-map_samples xs)

  -- Decode of what Encode made writes, at the front of a buffer that is large enough, each sample
  -- after its conversion to an int16 and back: 1 in place of a sample above 1, -1 in place of one below
  -- -1, and otherwise the sample itself. The rest of the buffer stays, and the count is that of the
  -- samples per channel. For int16 conversions that give 16 bits.
  pub decode-encode :
      (e : Encoder) (d : Decoder) (ss pcm : List Carrier) (bytes : List ℕ)
      → ((s : Carrier) → to_int16 s < 2 ^ 16)
      → d.channels ≢ 0
      → length ss ≤ length pcm
      → encode f e ss ≡ ok bytes
      → (cs : List Carrier) × LimitedAll ss cs
        × (decode f d bytes pcm
            ≡ ok (
              length ss / d.channels,
              map (λ c. of_int16 (to_int16 c)) cs ++ drop (length ss) pcm,
            ))
  unfolding decode
  decode-encode e d ss pcm bytes small some_channel room h = (
    map (clamp f) ss,
    clamp-LimitedAll ss,
    ground (
      arith,
      made,
      length-encode_samples ss,
      decode-encode_samples ss small,
      copy-eq-append pcm (map (λ c. of_int16 (to_int16 c)) (map (clamp f) ss))
          (omega (arith, length-map_samples ss)),
      length-map_samples ss,
    ),
  )
    where
      made : encode_samples f ss ≡ bytes
      made = unfold encode in ground arith

  -- A frame that Encode takes has two bytes for each sample of the encoder's frame.
  pub length-encode :
      (e : Encoder) (pcm : List Carrier) (bytes : List ℕ)
      → encode f e pcm ≡ ok bytes
      → length bytes ≡ 2 * (e.frame_samples * e.config.channels)
  unfolding encode
  length-encode e pcm bytes h = ground (arith, length-encode_samples pcm)

pub new_encoder_stereo :
    (cfg : EncoderConfig) (e : Encoder)
    → new_encoder cfg ≡ ok e
    → cfg.channels ≡ 2
    → e.frame_samples * e.config.channels ≡ 96 * cfg.frame_ms
unfolding new_encoder
new_encoder_stereo cfg e h stereo = ground arith
