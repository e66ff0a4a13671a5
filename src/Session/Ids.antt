-- ===== src/Session/Ids.antt =====
-- internal/session/manager.go: generateSessionID, generateToken and generateClientID. The bytes that
-- crypto/rand delivers are an argument; `none` is its failure.
use soundswamp.Prelude.{
  ℕ, suc, ◌+◌, ◌*◌, ◌/◌, ◌%◌, ◌<◌, ◌≤◌, ◌≡◌, ◌≢◌, refl, ap, ◌∙◌, zero, Option, some, List, [], ◌∷◌,
  ◌++◌, map, ltb, if◌then◌else◌, arith, length, get_or, All,
}
use soundswamp.Prelude.Table.{GoString}
use soundswamp.Prelude.Text.{codes}
use mathlib.Core.Option
use soundswamp.Protocol.Bytes.{IsBytes}

abbrev pub session_id_length : ℕ
session_id_length = 6

abbrev pub token_length : ℕ
token_length = 32

abbrev charset : GoString
charset = codes "ABCDEFGHJKLMNPQRSTUVWXYZ23456789"

unfoldable pub session_char : ℕ → ℕ
session_char b = get_or charset (b % 32) 0

unfoldable pub generate_session_id : Option (List ℕ) → Option GoString
unfolding session_char
generate_session_id random = Option.map (map session_char) random

hex_digit : ℕ → ℕ
hex_digit d = if ltb d 10 then 48 + d else 87 + d

-- hex.EncodeToString.
unfoldable pub hex : List ℕ → GoString
unfolding hex_digit
hex [] = []
hex (b ∷ bs) = hex_digit (b / 16) ∷ hex_digit (b % 16) ∷ hex bs

unfoldable pub generate_token : Option (List ℕ) → Option GoString
generate_token random = Option.map hex random

unfoldable pub generate_client_id : Option (List ℕ) → Option GoString
generate_client_id random = Option.map (λ bytes. codes "cli_" ++ hex bytes) random

-- A letter or digit that is none of I, O, 0 and 1.
abbrev pub Clear : ℕ → Type 0
Clear c = (48 ≤ c) × (c ≤ 90) × (c ≢ 48) × (c ≢ 49) × (c ≢ 73) × (c ≢ 79)

charset-Clear : All Clear charset
charset-Clear = omega arith

All-get_or : (P : ℕ → Type 0) (xs : List ℕ) (i d : ℕ) → All P xs → i < length xs → P (get_or xs i d)
All-get_or P [] i d h k = absurd (omega arith)
All-get_or P (x ∷ xs) zero d h k = h.0
All-get_or P (x ∷ xs) (suc i) d h k = All-get_or P xs i d h.1 (omega arith)

session_chars : (bytes : List ℕ) → All Clear (map session_char bytes)
unfolding session_char
session_chars [] = tt
session_chars (b ∷ bs) =
    (All-get_or Clear charset (b % 32) 0 charset-Clear (omega arith), session_chars bs)

length-map_char : (bytes : List ℕ) → length (map session_char bytes) ≡ length bytes
length-map_char [] = refl
length-map_char (b ∷ bs) = ap suc (length-map_char bs)

-- From six random bytes comes a session code of six characters, each a letter or digit and none of the
-- confusing I, O, 0 and 1.
pub generate_session_id_shape :
    (bytes : List ℕ)
    → length bytes ≡ session_id_length
    → (id : GoString) × (generate_session_id (some bytes) ≡ some id)
      × (length id ≡ session_id_length)
      × All Clear id
unfolding generate_session_id
generate_session_id_shape bytes h =
    (map session_char bytes, refl, length-map_char bytes ∙ h, session_chars bytes)

hex_digit-injective : (a b : ℕ) → a < 16 → b < 16 → hex_digit a ≡ hex_digit b → a ≡ b
unfolding hex_digit
hex_digit-injective a b ha hb h = ground arith

hex-injective : (xs ys : List ℕ) → IsBytes xs → IsBytes ys → hex xs ≡ hex ys → xs ≡ ys
unfolding hex
hex-injective [] [] hx hy e = refl
hex-injective [] (y ∷ ys) hx hy e = cc
hex-injective (x ∷ xs) [] hx hy e = cc
hex-injective (x ∷ xs) (y ∷ ys) hx hy e = ground (
  arith,
  hex_digit-injective (x / 16) (y / 16) (omega arith) (omega arith),
  hex_digit-injective (x % 16) (y % 16) (omega arith) (omega arith),
  hex-injective xs ys,
)

length-hex : (xs : List ℕ) → length (hex xs) ≡ 2 * length xs
unfolding hex
length-hex [] = omega arith
length-hex (x ∷ xs) = omega (arith, length-hex xs)

-- Random bytes that differ give client identifiers and tokens that differ.
pub ids-injective :
    (xs ys : List ℕ)
    → IsBytes xs
    → IsBytes ys
    → xs ≢ ys
    → (generate_client_id (some xs) ≢ generate_client_id (some ys))
      × (generate_token (some xs) ≢ generate_token (some ys))
unfolding generate_client_id generate_token
ids-injective xs ys hx hy ne = (
  λ e. ne (hex-injective xs ys hx hy (ground arith)),
  λ e. ne (hex-injective xs ys hx hy (ground arith)),
)
