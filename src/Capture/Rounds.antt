-- ===== src/Capture/Rounds.antt =====
-- internal/capture/wasapi_windows.go: which rounds of processCaptureBuffer take a packet, and what it holds.
use soundswamp.Prelude.{
  All-take, ◌≢◌, true, false, ==_iff, ◌*◌, ◌/◌, ◌%◌, ◌≤◌, ◌<◌, ◌≡◌, refl, ◌⊎◌, inl, inr, List, [],
  ◌∷◌, ◌++◌, ◌==◌, arith, length, take, replicate, Bool-cases, length-replicate, length-take,
}
use soundswamp.Capture.{Float32, WaveFormatEx}
use soundswamp.Capture.Convert.{written}
use soundswamp.Capture.Formats.{convert_total}
use soundswamp.Capture.Samples.{Sounds, convert-Sounds}
use soundswamp.Protocol.Bytes.{IsByte, IsBytes}
use soundswamp.Capture.Packets.{Round, packet_samples}

-- A format whose frames have a sample of each channel and nothing else.
pub record IsAligned (mix : WaveFormatEx) : Type 0 where
  pub some_channel : 0 < mix.channels
  pub frame : mix.block_align ≡ mix.channels * (mix.bits_per_sample / 8)

-- GetBuffer points to bytes, as many as the frames that it announces have.
pub record Backed (mix : WaveFormatEx) (m : Round) : Type 0 where
  pub enough : m.num_frames * mix.block_align ≤ length m.memory
  pub bytes : IsBytes m.memory

-- The round takes a packet: the capture runs, both calls succeed, and there are frames.
pub record HasPacket (m : Round) : Type 0 where
  pub runs : m.running ≡ true
  pub next_ok : m.next_hr ≡ 0
  pub announced : m.num_frames_in_next_packet ≢ 0
  pub get_ok : m.get_hr ≡ 0
  pub some_frame : 0 < m.num_frames

-- The round ends the loop.
abbrev pub Ends : Round → Type 0
Ends m =
    (m.running ≡ false)
    ⊎ (m.next_hr ≢ 0)
    ⊎ (m.num_frames_in_next_packet ≡ 0)
    ⊎ (m.get_hr ≢ 0)
    ⊎ (m.num_frames ≡ 0)

module _ (f : Float32) where
  -- The samples of a packet, one for each channel of each frame: zeros where Windows flags it as silent
  -- (bit 1 of the flags), and otherwise what its bytes stand for.
  abbrev pub Heard : WaveFormatEx → Round → List f.Carrier → Type 0
  Heard mix m ss =
      (length ss ≡ m.num_frames * mix.channels)
      × (((m.flags / 2 % 2 ≡ 1) × (ss ≡ replicate (m.num_frames * mix.channels) f.zero))
          ⊎ ((m.flags / 2 % 2 ≡ 0)
              × Sounds f mix.bits_per_sample (m.num_frames * mix.channels)
                  (take (m.num_frames * mix.block_align) m.memory) ss))

  -- The samples of the packets that are taken before the loop ends, in order.
  abbrev pub Captured : WaveFormatEx → List Round → List f.Carrier → Type 0
  Captured mix [] ss = ss ≡ []
  Captured mix (m ∷ ms) ss =
      (Ends m × (ss ≡ []))
      ⊎ (HasPacket m
          × (first : List f.Carrier) × (rest : List f.Carrier) × (ss ≡ first ++ rest)
          × Heard mix m first
          × Captured mix ms rest)

  pub packet_samples_total :
      (mix : WaveFormatEx) (m : Round)
      → IsAligned mix
      → Backed mix m
      → 0 < m.num_frames
      → (ss : List f.Carrier) × (packet_samples f mix m ≡ written ss) × Heard mix m ss
  unfolding packet_samples
  packet_samples_total mix m v backed some_frame = elim (Bool-cases (m.flags / 2 % 2 == 1)) [
    | inl silent ↦ (
      replicate (m.num_frames * mix.channels) f.zero,
      rw silent refl,
      (
        length-replicate (m.num_frames * mix.channels) f.zero,
        inl ((==_iff (m.flags / 2 % 2) 1).0 silent, refl),
      ),
    )
    | inr loud ↦
        let size = m.num_frames * mix.block_align in
        let count = m.num_frames * mix.channels in
        let (ss, e, k) =
          convert_total f mix.bits_per_sample count (take size m.memory)
            (grind (arith, v.some_channel))
            (grind (arith, v.frame, backed.enough, length-take size m.memory)) in
        (
          ss,
          rw loud e,
          (
            k,
            inr (
              ground (arith, loud),
              convert-Sounds f mix.bits_per_sample count (take size m.memory) ss
                  (All-take IsByte size m.memory backed.bytes) e,
            ),
          ),
        )
  ]
