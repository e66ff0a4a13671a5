-- ===== src/Capture/Convert.antt =====
-- internal/capture/wasapi_windows.go: convertAndWrite, up to the writes into the ring.
use soundswamp.Prelude.{
  ℕ, zero, suc, ◌+◌, ◌*◌, ◌-◌, ◌/◌, ◌%◌, ◌^◌, List, [], ◌∷◌, ◌==◌, ltb, if◌then◌else◌, replicate,
}
use soundswamp.Prelude.Int.{ℤ, pos, negsuc}
use soundswamp.Capture.{Float32}

-- The samples, a panic, or a read of memory outside the captured bytes, which an unsafe slice allows.
pub data Converted (A : Type 0) : Type 0 where
  written : List A → Converted A
  panic : Converted A
  outside : Converted A

infixr 60 ◌before◌
unfoldable pub ◌before◌ : {A : Type 0} → A → Converted A → Converted A
s before (written ss) = written (s ∷ ss)
s before panic = panic
s before outside = outside

-- An int16 from its two bytes.
unfoldable pub int16 : ℕ → ℕ → ℤ
int16 lo hi = let u = lo + hi * 2 ^ 8 in if ltb u (2 ^ 15) then pos u else negsuc (2 ^ 16 - 1 - u)

-- val, from three bytes, with its bit 23 extended to the left.
unfoldable pub int24 : ℕ → ℕ → ℕ → ℤ
int24 b0 b1 b2 =
    let val = b0 + b1 * 2 ^ 8 + b2 * 2 ^ 16 in
    if val / 2 ^ 23 % 2 == 0 then pos val else negsuc (2 ^ 24 - 1 - val)

module _ (f : Float32) where
  open f use {Carrier, from_bits, of_int, div}

  unfoldable pub convert_32 : ℕ → List ℕ → Converted Carrier
  unfolding ◌before◌
  convert_32 zero bytes = written []
  convert_32 (suc n) (b0 ∷ b1 ∷ b2 ∷ b3 ∷ bytes) =
      from_bits (b0 + b1 * 2 ^ 8 + b2 * 2 ^ 16 + b3 * 2 ^ 24) before convert_32 n bytes
  convert_32 (suc n) [] = outside
  convert_32 (suc n) (b0 ∷ []) = outside
  convert_32 (suc n) (b0 ∷ b1 ∷ []) = outside
  convert_32 (suc n) (b0 ∷ b1 ∷ b2 ∷ []) = outside

  unfoldable pub convert_16 : ℕ → List ℕ → Converted Carrier
  unfolding int16 ◌before◌
  convert_16 zero bytes = written []
  convert_16 (suc n) (lo ∷ hi ∷ bytes) =
      div (of_int (int16 lo hi)) (of_int (pos 32767)) before convert_16 n bytes
  convert_16 (suc n) [] = outside
  convert_16 (suc n) (lo ∷ []) = outside

  -- An index beyond the slice panics.
  unfoldable pub convert_24 : ℕ → List ℕ → Converted Carrier
  unfolding int24 ◌before◌
  convert_24 zero bytes = written []
  convert_24 (suc n) (b0 ∷ b1 ∷ b2 ∷ bytes) =
      div (of_int (int24 b0 b1 b2)) (of_int (pos 8388607)) before convert_24 n bytes
  convert_24 (suc n) [] = panic
  convert_24 (suc n) (b0 ∷ []) = panic
  convert_24 (suc n) (b0 ∷ b1 ∷ []) = panic

  -- The first byte of the slice is taken at once for 16 and 32 bits.
  unfoldable pub nonempty : List ℕ → Converted Carrier → Converted Carrier
  nonempty [] r = panic
  nonempty (b ∷ bytes) r = r

  -- convertAndWrite for `count` samples: what it writes. A format it does not know is silence.
  unfoldable pub convert : ℕ → ℕ → List ℕ → Converted Carrier
  unfolding convert_32 convert_16 convert_24 nonempty
  convert bits_per_sample count bytes =
      if bits_per_sample == 32
      then nonempty bytes (convert_32 count bytes)
      else if bits_per_sample == 16
      then nonempty bytes (convert_16 count bytes)
      else if bits_per_sample == 24
      then convert_24 count bytes
      else written (replicate count f.zero)
