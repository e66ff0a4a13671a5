-- ===== src/Capture.antt =====
-- internal/capture/wasapi_windows.go: from a captured packet to the ring, and the life of the device. The
-- calls into Windows are arguments: what each of them returns.
pub mod Convert
pub mod Formats
pub mod Samples
pub mod Packets
pub mod Rounds
pub mod Delivered
pub mod Device
pub mod Lifecycle
use soundswamp.Prelude.{ℕ}
use soundswamp.Prelude.Int.{ℤ}

-- waveFormatEx.
pub record WaveFormatEx : Type 0 where
  pub format_tag : ℕ
  pub channels : ℕ
  pub samples_per_sec : ℕ
  pub avg_bytes_per_sec : ℕ
  pub block_align : ℕ
  pub bits_per_sample : ℕ
  pub cb_size : ℕ

-- float32 as the capture uses it: 0, the number that a pattern of 32 bits stands for, the conversion of an
-- integer, and division.
pub record Float32 : Type 1 where
  pub Carrier : Type 0
  pub zero : Carrier
  pub from_bits : ℕ → Carrier
  pub of_int : ℤ → Carrier
  pub div : Carrier → Carrier → Carrier
