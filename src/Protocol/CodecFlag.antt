-- ===== src/Protocol/CodecFlag.antt =====
-- internal/protocol/packet.go: the named values of CodecFlag, which is a byte.
use soundswamp.Prelude.{ℕ}

abbrev pub opus : ℕ
opus = 0x00

abbrev pub pcm : ℕ
pcm = 0x01
