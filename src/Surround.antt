-- ===== src/Surround.antt =====
-- internal/surround/demux.go: splitting interleaved samples into channels, and the stereo downmix.
-- float32 is a parameter: samples are only moved by the demuxer, and added and scaled by the downmix.
pub mod Rows
pub mod Demux
pub mod Downmix
use soundswamp.Prelude.{
  ℕ, zero, suc, ◌+◌, ◌*◌, ◌/◌, ◌%◌, Bool, true, false, Option, none, some, List, [], ◌∷◌, ◌==◌, not,
  ltb, leb, if◌then◌else◌, length, get_or, get_elem?, set, replicate,
}
use soundswamp.Protocol.ChannelMask.{
  front_left, front_right, center, lfe, surround_left, surround_right, back_left, back_right,
}

pub data Error : Type 0 where
  unsupported_channels not_multiple few_buffers short_buffer wrong_channels small_output : Error

-- Go's (value, error), or a panic: an index out of range, or a division by zero.
pub data Result {ℓ} (A : Type ℓ) : Type ℓ where
  ok : A → Result A
  err : Error → Result A
  panic : Result A

infixl 5 ◌>>=◌
abbrev pub ◌>>=◌ {ℓ κ} : {A : Type ℓ} {B : Type κ} → Result A → (A → Result B) → Result B
ok a >>= f = f a
err e >>= f = err e
panic >>= f = panic

-- ChannelLayout, without its name.
pub record ChannelLayout : Type 0 where
  pub channels : ℕ
  pub mapping : List ℕ

abbrev pub layout_stereo : ChannelLayout
layout_stereo = record { channels = 2; mapping = front_left ∷ front_right ∷ [] }

abbrev pub layout_51 : ChannelLayout
layout_51 = record {
  channels = 6;
  mapping = front_left ∷ front_right ∷ center ∷ lfe ∷ surround_left ∷ surround_right ∷ [];
}

abbrev pub layout_71 : ChannelLayout
layout_71 = record {
  channels = 8;
  mapping =
      front_left ∷ front_right ∷ center ∷ lfe ∷ back_left ∷ back_right ∷ surround_left
      ∷ surround_right ∷ [];
}

unfoldable pub layout_for_channels : ℕ → Result ChannelLayout
layout_for_channels n =
    if n == 2
    then ok layout_stereo
    else if n == 6
    then ok layout_51
    else if n == 8
    then ok layout_71
    else err unsupported_channels

module _ {ℓ} {A : Type ℓ} where
  -- Whether the first `channels` buffers have `per_channel` samples each.
  unfoldable pub roomy : ℕ → ℕ → List (List A) → Bool
  roomy zero per_channel output = true
  roomy (suc n) per_channel [] = false
  roomy (suc n) per_channel (row ∷ rows) =
      if ltb (length row) per_channel then false else roomy n per_channel rows

module _ {ℓ} {A : Type ℓ} (silence : A) where
  -- output[ch][sample] = v
  unfoldable pub write : List (List A) → ℕ → ℕ → A → List (List A)
  write output ch sample v = set output ch (set (get_or output ch []) sample v)

  -- The inner loop: `rounds` channels from `ch` on, of the frame at `i`.
  unfoldable pub frame_loop : ℕ → ℕ → ℕ → ℕ → List A → List (List A) → List (List A)
  unfolding write
  frame_loop zero ch sample i interleaved output = output
  frame_loop (suc rounds) ch sample i interleaved output =
      frame_loop rounds (ch + 1) sample i interleaved
        (write output ch sample (get_or interleaved (i + ch) silence))

  -- The outer loop: `rounds` frames from `i` on.
  unfoldable pub demux_loop : ℕ → ℕ → ℕ → List A → List (List A) → List (List A)
  unfolding frame_loop
  demux_loop zero channels i interleaved output = output
  demux_loop (suc rounds) channels i interleaved output =
      demux_loop rounds channels (i + channels) interleaved
        (frame_loop channels 0 (i / channels) i interleaved output)

  -- Demuxer.Demux.
  unfoldable pub demux : ℕ → List A → Result (List (List A))
  unfolding demux_loop
  demux channels interleaved =
      if channels == 0
      then panic
      else if not (length interleaved % channels == 0)
      then err not_multiple
      else let per_channel = length interleaved / channels in
        let output = replicate channels (replicate per_channel silence) in
        ok (demux_loop per_channel channels 0 interleaved output)

  -- Demuxer.DemuxInto: the buffers are written in place.
  unfoldable pub demux_into : ℕ → List A → List (List A) → Result (List (List A))
  unfolding demux_loop roomy
  demux_into channels interleaved output =
      if channels == 0
      then panic
      else if not (length interleaved % channels == 0)
      then err not_multiple
      else if ltb (length output) channels
      then err few_buffers
      else let per_channel = length interleaved / channels in
        if roomy channels per_channel output
        then ok (demux_loop per_channel channels 0 interleaved output)
        else err short_buffer
