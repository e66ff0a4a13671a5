-- ===== src/Capture/Packets.antt =====
-- internal/capture/wasapi_windows.go: processCaptureBuffer.
use soundswamp.Prelude.{
  ℕ, ◌*◌, ◌/◌, ◌%◌, Bool, ◌||◌, List, [], ◌∷◌, ◌++◌, ◌==◌, not, if◌then◌else◌, take, replicate,
}
use soundswamp.Ring.{Ring, write_samples}
use soundswamp.Capture.{Float32, WaveFormatEx}
use soundswamp.Capture.Convert
use soundswamp.Capture.Convert.{Converted, written, convert}

-- What one round of the loop meets: whether the capture runs and has its client, the results of
-- GetNextPacketSize and GetBuffer, and the memory that the latter points to.
pub record Round : Type 0 where
  pub running : Bool
  pub next_hr : ℕ
  pub num_frames_in_next_packet : ℕ
  pub get_hr : ℕ
  pub num_frames : ℕ
  pub flags : ℕ
  pub memory : List ℕ

-- Calls of GetBuffer that succeed and of ReleaseBuffer, with their numbers of frames.
pub data Event : Type 0 where
  acquired : ℕ → Event
  released : ℕ → Event

pub data Outcome (A : Type 0) : Type 0 where
  done : Ring A → List Event → Outcome A
  panic : Outcome A
  outside : Outcome A

unfoldable pub logged : {A : Type 0} → List Event → Outcome A → Outcome A
logged es (done w log) = done w (es ++ log)
logged es panic = panic
logged es outside = outside

module _ (f : Float32) where
  -- What a packet holds: silence, or its bytes converted.
  unfoldable pub packet_samples : WaveFormatEx → Round → Converted f.Carrier
  packet_samples mix m =
      let total_samples = m.num_frames * mix.channels in
      if m.flags / 2 % 2 == 1
      then written (replicate total_samples f.zero)
      else convert f mix.bits_per_sample total_samples
          (take (m.num_frames * mix.block_align) m.memory)

  -- processCaptureBuffer for a mix format, over the rounds that it meets.
  unfoldable pub process : WaveFormatEx → List Round → Ring f.Carrier → Outcome f.Carrier
  unfolding packet_samples logged
  process mix [] w = done w []
  process mix (m ∷ ms) w =
      let packet : Outcome f.Carrier = elim (packet_samples mix m) [
        | Convert.panic ↦ panic
        | Convert.outside ↦ outside
        | written samples ↦
            logged (acquired m.num_frames ∷ released m.num_frames ∷ [])
              (process mix ms (write_samples f.zero samples w))
      ] in
      if not m.running
      then done w []
      else if not (m.next_hr == 0) || m.num_frames_in_next_packet == 0
      then done w []
      else if not (m.get_hr == 0)
      then done w []
      else if m.num_frames == 0
      then done w (acquired 0 ∷ [])
      else packet
