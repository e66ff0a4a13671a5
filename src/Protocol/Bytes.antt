-- ===== src/Protocol/Bytes.antt =====
-- The fixed-width integers of encoding/binary that internal/protocol/packet.go and
-- internal/codec/opus.go write and read. A byte slice is a list of numbers below 256.
use soundswamp.Prelude.{ℕ, ◌+◌, ◌*◌, ◌/◌, ◌%◌, ◌^◌, ◌<◌, ◌≡◌, List, [], ◌∷◌, arith, get_or, All}

abbrev pub IsByte : ℕ → Type 0
IsByte b = b < 256

abbrev pub IsBytes : List ℕ → Type 0
IsBytes = All IsByte

abbrev pub put_be16 : ℕ → List ℕ
put_be16 x = x / 2 ^ 8 % 256 ∷ x % 256 ∷ []

abbrev pub put_be32 : ℕ → List ℕ
put_be32 x = x / 2 ^ 24 % 256 ∷ x / 2 ^ 16 % 256 ∷ x / 2 ^ 8 % 256 ∷ x % 256 ∷ []

abbrev pub put_be64 : ℕ → List ℕ
put_be64 x =
    x / 2 ^ 56 % 256
    ∷ x / 2 ^ 48 % 256
    ∷ x / 2 ^ 40 % 256
    ∷ x / 2 ^ 32 % 256
    ∷ x / 2 ^ 24 % 256
    ∷ x / 2 ^ 16 % 256
    ∷ x / 2 ^ 8 % 256
    ∷ x % 256
    ∷ []

-- The readers take the slice and look at its first bytes.
abbrev pub get_be16 : List ℕ → ℕ
get_be16 b = get_or b 0 0 * 2 ^ 8 + get_or b 1 0

abbrev pub get_be32 : List ℕ → ℕ
get_be32 b = get_or b 0 0 * 2 ^ 24 + get_or b 1 0 * 2 ^ 16 + get_or b 2 0 * 2 ^ 8 + get_or b 3 0

abbrev pub get_be64 : List ℕ → ℕ
get_be64 b =
    get_or b 0 0 * 2 ^ 56
    + get_or b 1 0 * 2 ^ 48
    + get_or b 2 0 * 2 ^ 40
    + get_or b 3 0 * 2 ^ 32
    + get_or b 4 0 * 2 ^ 24
    + get_or b 5 0 * 2 ^ 16
    + get_or b 6 0 * 2 ^ 8
    + get_or b 7 0

pub get_be16-put : (x : ℕ) → x < 2 ^ 16 → get_be16 (put_be16 x) ≡ x
get_be16-put x h = omega arith

pub get_be32-put : (x : ℕ) → x < 2 ^ 32 → get_be32 (put_be32 x) ≡ x
get_be32-put x h = omega arith

pub get_be64-put : (x : ℕ) → x < 2 ^ 64 → get_be64 (put_be64 x) ≡ x
get_be64-put x h = omega arith

-- Writing what was read from bytes gives those bytes.
pub put_be16-get : (a b : ℕ) → IsBytes (a ∷ b ∷ []) → put_be16 (get_be16 (a ∷ b ∷ [])) ≡ a ∷ b ∷ []
put_be16-get a b h = ground arith

pub put_be32-get :
    (a b c d : ℕ)
    → IsBytes (a ∷ b ∷ c ∷ d ∷ [])
    → put_be32 (get_be32 (a ∷ b ∷ c ∷ d ∷ [])) ≡ a ∷ b ∷ c ∷ d ∷ []
put_be32-get a b c d h = ground arith

pub put_be64-get :
    (a b c d e f g i : ℕ)
    → IsBytes (a ∷ b ∷ c ∷ d ∷ e ∷ f ∷ g ∷ i ∷ [])
    → put_be64 (get_be64 (a ∷ b ∷ c ∷ d ∷ e ∷ f ∷ g ∷ i ∷ [])) ≡ a ∷ b ∷ c ∷ d ∷ e ∷ f ∷ g ∷ i ∷ []
put_be64-get a b c d e f g i h = ground arith

pub put_be16-IsBytes : (x : ℕ) → IsBytes (put_be16 x)
put_be16-IsBytes x = omega arith

pub put_be32-IsBytes : (x : ℕ) → IsBytes (put_be32 x)
put_be32-IsBytes x = omega arith

pub put_be64-IsBytes : (x : ℕ) → IsBytes (put_be64 x)
put_be64-IsBytes x = omega arith

pub get_be64-lt :
    (a b c d e f g i : ℕ)
    → IsBytes (a ∷ b ∷ c ∷ d ∷ e ∷ f ∷ g ∷ i ∷ [])
    → get_be64 (a ∷ b ∷ c ∷ d ∷ e ∷ f ∷ g ∷ i ∷ []) < 2 ^ 64
get_be64-lt a b c d e f g i h = omega arith
