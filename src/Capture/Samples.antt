-- ===== src/Capture/Samples.antt =====
-- internal/capture/wasapi_windows.go: convertAndWrite, sample by sample.
use native.Mathlib.Decide.{ℕ_discrete}
use soundswamp.Prelude.{
  ℕ, zero, suc, ◌+◌, ◌*◌, ◌-◌, ◌^◌, ◌≡◌, ◌≢◌, ap, ◌⊎◌, inl, inr, List, [], ◌∷◌, arith, ltb,
  if◌then◌else◌, drop, replicate,
}
use soundswamp.Prelude.Int.{ℤ, pos, negsuc}
use soundswamp.Protocol.Bytes.{IsBytes}
use soundswamp.Capture.{Float32}
use soundswamp.Capture.Convert
use soundswamp.Capture.Convert.{
  Converted, written, ◌before◌, int16, int24, convert_32, convert_16, convert_24, nonempty, convert,
}

-- The number that the first `width` bytes make, the lowest byte first.
abbrev pub unsigned : ℕ → List ℕ → ℕ
unsigned zero bytes = 0
unsigned (suc width) [] = 0
unsigned (suc width) (b ∷ bytes) = b + 2 ^ 8 * unsigned width bytes

-- The integer that a number stands for in two's complement on `bits` bits.
abbrev pub signed : ℕ → ℕ → ℤ
signed bits u = if ltb u (2 ^ (bits - 1)) then pos u else negsuc (2 ^ bits - 1 - u)

int24-signed :
    (a b c : ℕ) (bytes : List ℕ)
    → IsBytes (a ∷ b ∷ c ∷ bytes)
    → int24 a b c ≡ signed 24 (unsigned 3 (a ∷ b ∷ c ∷ bytes))
unfolding int24
int24-signed a b c bytes v = let (ha, (hb, (hc, _))) = v in ground (arith, ha, hb, hc)

int16-signed : (a b : ℕ) (bytes : List ℕ) → int16 a b ≡ signed 16 (unsigned 2 (a ∷ b ∷ bytes))
unfolding int16
int16-signed a b bytes = ground arith

module _ (f : Float32) where
  open f use {Carrier, from_bits, of_int, div}

  -- Each sample is the value of the number in its own `width` bytes, one after the other.
  abbrev pub Holds : ℕ → (ℕ → Carrier) → List ℕ → List Carrier → Type 0
  Holds width value bytes [] = Unit {0}
  Holds width value bytes (s ∷ ss) =
      (s ≡ value (unsigned width bytes)) × Holds width value (drop width bytes) ss

  nothing-Holds :
      (width : ℕ) (value : ℕ → Carrier) (bytes : List ℕ) (ss : List Carrier)
      → (let none_yet : List Carrier = [] in written none_yet) ≡ written ss
      → Holds width value bytes ss
  nothing-Holds width value bytes [] e = tt
  nothing-Holds width value bytes (s ∷ ss) e = cc e

  before-Holds :
      (width : ℕ) (value : ℕ → Carrier) (bytes : List ℕ) (s : Carrier) (r : Converted Carrier)
      (ss : List Carrier)
      → s before r ≡ written ss
      → s ≡ value (unsigned width bytes)
      → ((rest : List Carrier) → r ≡ written rest → Holds width value (drop width bytes) rest)
      → Holds width value bytes ss
  unfolding ◌before◌
  before-Holds width value bytes s r [] e first next = tt
  before-Holds width value bytes s (written rest) (x ∷ xs) e first next =
      (cc (e, first), next xs (cc e))
  before-Holds width value bytes s Convert.panic (x ∷ xs) e first next = cc e
  before-Holds width value bytes s Convert.outside (x ∷ xs) e first next = cc e

  convert_32-Holds :
      (n : ℕ) (bytes : List ℕ) (ss : List Carrier)
      → convert_32 f n bytes ≡ written ss
      → Holds 4 from_bits bytes ss
  unfolding convert_32
  convert_32-Holds zero bytes ss e = nothing-Holds 4 from_bits bytes ss e
  convert_32-Holds (suc n) [] ss e = cc e
  convert_32-Holds (suc n) (a ∷ []) ss e = cc e
  convert_32-Holds (suc n) (a ∷ b ∷ []) ss e = cc e
  convert_32-Holds (suc n) (a ∷ b ∷ c ∷ []) ss e = cc e
  convert_32-Holds (suc n) (a ∷ b ∷ c ∷ d ∷ bytes) ss e =
      before-Holds 4 from_bits (a ∷ b ∷ c ∷ d ∷ bytes) _ _ ss e (ap from_bits (omega arith))
        (convert_32-Holds n bytes)

  -- An integer over the largest one of its width.
  abbrev pub pcm : ℕ → ℕ → Carrier
  pcm bits u = div (of_int (signed bits u)) (of_int (pos (2 ^ (bits - 1) - 1)))

  convert_16-Holds :
      (n : ℕ) (bytes : List ℕ) (ss : List Carrier)
      → convert_16 f n bytes ≡ written ss
      → Holds 2 (pcm 16) bytes ss
  unfolding convert_16
  convert_16-Holds zero bytes ss e = nothing-Holds 2 (pcm 16) bytes ss e
  convert_16-Holds (suc n) [] ss e = cc e
  convert_16-Holds (suc n) (a ∷ []) ss e = cc e
  convert_16-Holds (suc n) (a ∷ b ∷ bytes) ss e =
      before-Holds 2 (pcm 16) (a ∷ b ∷ bytes) _ _ ss e
        (ap (λ v. div (of_int v) (of_int (pos 32767))) (int16-signed a b bytes))
        (convert_16-Holds n bytes)

  convert_24-Holds :
      (n : ℕ) (bytes : List ℕ) (ss : List Carrier)
      → IsBytes bytes
      → convert_24 f n bytes ≡ written ss
      → Holds 3 (pcm 24) bytes ss
  unfolding convert_24
  convert_24-Holds zero bytes ss v e = nothing-Holds 3 (pcm 24) bytes ss e
  convert_24-Holds (suc n) [] ss v e = cc e
  convert_24-Holds (suc n) (a ∷ []) ss v e = cc e
  convert_24-Holds (suc n) (a ∷ b ∷ []) ss v e = cc e
  convert_24-Holds (suc n) (a ∷ b ∷ c ∷ bytes) ss v e =
      let (_, (_, (_, v'))) = v in
      before-Holds 3 (pcm 24) (a ∷ b ∷ c ∷ bytes) _ _ ss e
        (ap (λ k. div (of_int k) (of_int (pos 8388607))) (int24-signed a b c bytes v))
        (λ rest. convert_24-Holds n bytes rest v')

  -- The samples of captured bytes: 32-bit floats, or integers of 16 or 24 bits scaled to [-1, 1], the
  -- lowest byte first; and silence in any other format.
  abbrev pub Sounds : ℕ → ℕ → List ℕ → List Carrier → Type 0
  Sounds bits count bytes ss =
      ((bits ≡ 32) × Holds 4 from_bits bytes ss)
      ⊎ ((bits ≡ 16) × Holds 2 (pcm 16) bytes ss)
      ⊎ ((bits ≡ 24) × Holds 3 (pcm 24) bytes ss)
      ⊎ ((bits ≢ 32) × (bits ≢ 16) × (bits ≢ 24) × (ss ≡ replicate count f.zero))

  nonempty-written :
      (bytes : List ℕ) (r : Converted Carrier) (ss : List Carrier)
      → nonempty f bytes r ≡ written ss
      → r ≡ written ss
  unfolding nonempty
  nonempty-written [] r ss e = cc e
  nonempty-written (b ∷ bytes) r ss e = e

  pub convert-Sounds :
      (bits count : ℕ) (bytes : List ℕ) (ss : List Carrier)
      → IsBytes bytes
      → convert f bits count bytes ≡ written ss
      → Sounds bits count bytes ss
  unfolding convert
  convert-Sounds bits count bytes ss v e = elim (ℕ_discrete bits 32) [
    | yes at_32 ↦
        inl
          (at_32, convert_32-Holds count bytes ss (nonempty-written bytes _ ss (ground (arith, e))))
    | no not_32 ↦ elim (ℕ_discrete bits 16) [
      | yes at_16 ↦ inr (
          inl (
            at_16,
            convert_16-Holds count bytes ss (nonempty-written bytes _ ss (ground (arith, e))),
          ))
      | no not_16 ↦ elim (ℕ_discrete bits 24) [
        | yes at_24 ↦ inr (inr (inl (at_24, convert_24-Holds count bytes ss v (ground (arith, e)))))
        | no not_24 ↦
            let same : written (replicate count f.zero) ≡ written ss = ground (arith, e) in
            inr (inr (inr (not_32, not_16, not_24, cc same)))
      ]
    ]
  ]
