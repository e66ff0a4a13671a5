-- ===== src/Protocol/Packet.antt =====
-- internal/protocol/packet.go: constants, the Packet type, its errors.
use soundswamp.Prelude.{ℕ, ◌+◌, ◌^◌, ◌<◌, List}
use soundswamp.Prelude.Int.{ℤ, IsI64}
use soundswamp.Protocol.Bytes.{IsByte, IsBytes}

abbrev pub protocol_version : ℕ
protocol_version = 1

abbrev pub header_size : ℕ
header_size = 18

abbrev pub max_payload_size : ℕ
max_payload_size = 4096

abbrev pub max_packet_size : ℕ
max_packet_size = header_size + max_payload_size

pub record Packet : Type 0 where
  pub version : ℕ
  pub type : ℕ
  pub seq_num : ℕ
  pub timestamp_us : ℤ
  pub channel_mask : ℕ
  pub codec : ℕ
  pub payload : List ℕ

-- The fields stay in the ranges of their Go types.
pub record IsPacket (p : Packet) : Type 0 where
  pub version_byte : IsByte p.version
  pub type_byte : IsByte p.type
  pub seq_num_u32 : p.seq_num < 2 ^ 32
  pub timestamp_i64 : IsI64 p.timestamp_us
  pub channel_byte : IsByte p.channel_mask
  pub codec_byte : IsByte p.codec
  pub payload_bytes : IsBytes p.payload

pub data Error : Type 0 where
  packet_too_short bad_version payload_too_large payload_mismatch buffer_too_small : Error

-- Go's (value, error) pair.
pub data Result {ℓ} (A : Type ℓ) : Type ℓ where
  ok : A → Result A
  err : Error → Result A
