-- ===== src/Protocol/PacketType.antt =====
-- internal/protocol/packet.go: the named values of PacketType, which is a byte.
use soundswamp.Prelude.{ℕ}

abbrev pub audio : ℕ
audio = 0x01

abbrev pub clock_sync_probe : ℕ
clock_sync_probe = 0x02

abbrev pub clock_sync_reply : ℕ
clock_sync_reply = 0x03

abbrev pub keep_alive : ℕ
keep_alive = 0x04
