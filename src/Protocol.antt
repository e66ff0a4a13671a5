-- ===== src/Protocol.antt =====
-- internal/protocol/packet.go: the UDP packet format and the framing of TCP control messages.
pub mod Bytes
pub mod PacketType
pub mod ChannelMask
pub mod CodecFlag
pub mod Packet
pub mod Marshal
pub mod RoundTrip
pub mod Framing
