-- ===== src/Protocol/ChannelMask.antt =====
-- internal/protocol/packet.go: the named values of ChannelMask, which is a byte.
use soundswamp.Prelude.{ℕ, ◌+◌, ◌/◌, ◌%◌, ◌∷◌, ◌++◌, ltb, ◌==◌, if◌then◌else◌}
use soundswamp.Prelude.Table.{GoString}
use soundswamp.Prelude.Text.{codes}

abbrev pub stereo_mix : ℕ
stereo_mix = 0xff

abbrev pub front_left : ℕ
front_left = 0x00

abbrev pub front_right : ℕ
front_right = 0x01

abbrev pub center : ℕ
center = 0x02

abbrev pub lfe : ℕ
lfe = 0x03

abbrev pub surround_left : ℕ
surround_left = 0x04

abbrev pub surround_right : ℕ
surround_right = 0x05

abbrev pub back_left : ℕ
back_left = 0x06

abbrev pub back_right : ℕ
back_right = 0x07

-- One digit of Go's `%02X`.
hex_upper : ℕ → ℕ
hex_upper d = if ltb d 10 then 48 + d else 55 + d

-- `String`.
pub channel_name : ℕ → GoString
unfolding hex_upper
channel_name c =
    if c == stereo_mix
    then codes "Stereo Mix"
    else if c == front_left
    then codes "Front Left"
    else if c == front_right
    then codes "Front Right"
    else if c == center
    then codes "Center"
    else if c == lfe
    then codes "LFE"
    else if c == surround_left
    then codes "Surround Left"
    else if c == surround_right
    then codes "Surround Right"
    else if c == back_left
    then codes "Back Left"
    else if c == back_right
    then codes "Back Right"
    else codes "Unknown(0x" ++ (hex_upper (c / 16) ∷ hex_upper (c % 16) ∷ codes ")")
