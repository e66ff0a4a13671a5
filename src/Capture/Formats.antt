-- ===== src/Capture/Formats.antt =====
-- internal/capture/wasapi_windows.go: convertAndWrite on whole packets and on integers in two's complement.
use mathlib.Core.Path.{subst}
use native.Mathlib.Decide.{ℕ_discrete}
use soundswamp.Prelude.{
  sym, ℕ, zero, suc, ◌*◌, ◌-◌, ◌/◌, ◌%◌, ◌^◌, ◌≤◌, ◌<◌, ◌≡◌, refl, ap, ◌⊎◌, inl, inr, List, [], ◌∷◌,
  ◌++◌, map, arith, length, replicate, All, length-replicate,
}
use soundswamp.Prelude.Int.{ℤ, pos, negsuc}
use soundswamp.Capture.{Float32}
use soundswamp.Capture.Convert.{
  Converted, written, ◌before◌, int16, int24, convert_32, convert_16, convert_24, nonempty, convert,
}

-- The integers of `bits` bits.
abbrev pub IsSigned : ℕ → ℤ → Type 0
IsSigned bits (pos n) = n < 2 ^ (bits - 1)
IsSigned bits (negsuc n) = n < 2 ^ (bits - 1)

-- The two's complement of an integer on `width` bytes.
unfoldable pub pattern_of : ℕ → ℤ → ℕ
pattern_of width (pos n) = n
pattern_of width (negsuc n) = 2 ^ (8 * width) - 1 - n

-- The lowest `width` bytes, the lowest first.
unfoldable pub little_endian : ℕ → ℕ → List ℕ
little_endian zero u = []
little_endian (suc width) u = u % 2 ^ 8 ∷ little_endian width (u / 2 ^ 8)

-- Integer samples as a device delivers them.
unfoldable pub pcm_bytes : ℕ → List ℤ → List ℕ
unfolding pattern_of little_endian
pcm_bytes width [] = []
pcm_bytes width (v ∷ vs) = little_endian width (pattern_of width v) ++ pcm_bytes width vs

int16-pattern :
    (v : ℤ) → IsSigned 16 v → int16 (pattern_of 2 v % 2 ^ 8) (pattern_of 2 v / 2 ^ 8 % 2 ^ 8) ≡ v
unfolding int16 pattern_of
int16-pattern (pos n) h = ground arith
int16-pattern (negsuc n) h = ground arith

int24-pattern :
    (v : ℤ)
    → IsSigned 24 v
    → int24
        (pattern_of 3 v % 2 ^ 8)
        (pattern_of 3 v / 2 ^ 8 % 2 ^ 8)
        (pattern_of 3 v / 2 ^ 8 / 2 ^ 8 % 2 ^ 8)
      ≡ v
unfolding int24 pattern_of
int24-pattern (pos n) h = ground arith
int24-pattern (negsuc n) h = ground arith

module _ (f : Float32) where
  open f use {Carrier, of_int, div}

  -- An integer over the largest one of its width.
  abbrev pub scaled : ℕ → ℤ → Carrier
  scaled width v = div (of_int v) (of_int (pos (2 ^ (8 * width - 1) - 1)))

  convert_16-pcm :
      (vs : List ℤ)
      → All (IsSigned 16) vs
      → convert_16 f (length vs) (pcm_bytes 2 vs) ≡ written (map (scaled 2) vs)
  unfolding convert_16 pcm_bytes little_endian
  convert_16-pcm [] h = refl
  convert_16-pcm (v ∷ vs) h = unfold ◌before◌ in rw (int16-pattern v h.0, convert_16-pcm vs h.1)

  convert_24-pcm :
      (vs : List ℤ)
      → All (IsSigned 24) vs
      → convert_24 f (length vs) (pcm_bytes 3 vs) ≡ written (map (scaled 3) vs)
  unfolding convert_24 pcm_bytes little_endian
  convert_24-pcm [] h = refl
  convert_24-pcm (v ∷ vs) h = unfold ◌before◌ in rw (int24-pattern v h.0, convert_24-pcm vs h.1)

  -- Samples that a device delivers as integers of 16 or 24 bits, in two's complement and little-endian,
  -- become, in order, each integer over 32767 or 8388607; negative ones included.
  pub convert-pcm_bytes :
      (width : ℕ) (v : ℤ) (vs : List ℤ)
      → (width ≡ 2) ⊎ (width ≡ 3)
      → All (IsSigned (8 * width)) (v ∷ vs)
      → convert f (8 * width) (length (v ∷ vs)) (pcm_bytes width (v ∷ vs))
        ≡ written (map (scaled width) (v ∷ vs))
  convert-pcm_bytes width v vs (inl e) h =
      subst
        (λ k.
          All (IsSigned (8 * k)) (v ∷ vs)
          → convert f (8 * k) (length (v ∷ vs)) (pcm_bytes k (v ∷ vs))
            ≡ written (map (scaled k) (v ∷ vs)))
        (sym e) (λ g. unfold convert nonempty pcm_bytes little_endian in convert_16-pcm (v ∷ vs) g)
        h
  convert-pcm_bytes width v vs (inr e) h =
      subst
        (λ k.
          All (IsSigned (8 * k)) (v ∷ vs)
          → convert f (8 * k) (length (v ∷ vs)) (pcm_bytes k (v ∷ vs))
            ≡ written (map (scaled k) (v ∷ vs)))
        (sym e) (λ g. unfold convert in convert_24-pcm (v ∷ vs) g) h

  before-total :
      (s : Carrier) {r : Converted Carrier} (n : ℕ)
      → (ss : List Carrier) × (r ≡ written ss) × (length ss ≡ n)
      → (ss : List Carrier) × (s before r ≡ written ss) × (length ss ≡ suc n)
  unfolding ◌before◌
  before-total s n (ss, e, k) = (s ∷ ss, ap (λ x. s before x) e, ap suc k)

  convert_32-total :
      (n : ℕ) (bytes : List ℕ)
      → n * 4 ≤ length bytes
      → (ss : List Carrier) × (convert_32 f n bytes ≡ written ss) × (length ss ≡ n)
  unfolding convert_32
  convert_32-total zero bytes h = ([], refl, refl)
  convert_32-total (suc n) [] h = absurd (omega arith)
  convert_32-total (suc n) (a ∷ []) h = absurd (omega arith)
  convert_32-total (suc n) (a ∷ b ∷ []) h = absurd (omega arith)
  convert_32-total (suc n) (a ∷ b ∷ c ∷ []) h = absurd (omega arith)
  convert_32-total (suc n) (a ∷ b ∷ c ∷ d ∷ bytes) h =
      before-total _ n (convert_32-total n bytes (omega arith))

  convert_16-total :
      (n : ℕ) (bytes : List ℕ)
      → n * 2 ≤ length bytes
      → (ss : List Carrier) × (convert_16 f n bytes ≡ written ss) × (length ss ≡ n)
  unfolding convert_16
  convert_16-total zero bytes h = ([], refl, refl)
  convert_16-total (suc n) [] h = absurd (omega arith)
  convert_16-total (suc n) (a ∷ []) h = absurd (omega arith)
  convert_16-total (suc n) (a ∷ b ∷ bytes) h =
      before-total _ n (convert_16-total n bytes (omega arith))

  convert_24-total :
      (n : ℕ) (bytes : List ℕ)
      → n * 3 ≤ length bytes
      → (ss : List Carrier) × (convert_24 f n bytes ≡ written ss) × (length ss ≡ n)
  unfolding convert_24
  convert_24-total zero bytes h = ([], refl, refl)
  convert_24-total (suc n) [] h = absurd (omega arith)
  convert_24-total (suc n) (a ∷ []) h = absurd (omega arith)
  convert_24-total (suc n) (a ∷ b ∷ []) h = absurd (omega arith)
  convert_24-total (suc n) (a ∷ b ∷ c ∷ bytes) h =
      before-total _ n (convert_24-total n bytes (omega arith))

  -- Of a slice with as many bytes as the samples have, convertAndWrite writes just the samples asked for,
  -- whatever the format, without a panic and without a read outside the slice.
  pub convert_total :
      (bits count : ℕ) (bytes : List ℕ)
      → 0 < count
      → count * (bits / 8) ≤ length bytes
      → (ss : List Carrier) × (convert f bits count bytes ≡ written ss) × (length ss ≡ count)
  convert_total bits count bytes some_sample h = elim (ℕ_discrete bits 32) [
    | yes e ↦
        sized 32 e
          (λ k. unfold convert in whole bytes (omega arith) (convert_32-total count bytes k))
    | no not_32 ↦ elim (ℕ_discrete bits 16) [
      | yes e ↦
          sized 16 e
            (λ k. unfold convert in whole bytes (omega arith) (convert_16-total count bytes k))
      | no not_16 ↦ elim (ℕ_discrete bits 24) [
        | yes e ↦ sized 24 e (λ k. unfold convert in convert_24-total count bytes k)
        | no not_24 ↦
            (replicate count f.zero, unfold convert in ground arith, length-replicate count f.zero)
      ]
    ]
  ]
    where
      sized :
          (known : ℕ)
          → bits ≡ known
          → (count * (known / 8) ≤ length bytes
              → (ss : List Carrier) × (convert f known count bytes ≡ written ss)
                × (length ss ≡ count))
          → (ss : List Carrier) × (convert f bits count bytes ≡ written ss) × (length ss ≡ count)
      sized known e g =
          subst
            (λ k.
              count * (k / 8) ≤ length bytes
              → (ss : List Carrier) × (convert f k count bytes ≡ written ss) × (length ss ≡ count))
            (sym e) g h

      whole :
          (bs : List ℕ) {r : Converted Carrier}
          → 0 < length bs
          → (ss : List Carrier) × (r ≡ written ss) × (length ss ≡ count)
          → (ss : List Carrier) × (nonempty f bs r ≡ written ss) × (length ss ≡ count)
      whole [] some_byte r = absurd (omega arith)
      whole (b ∷ bs) some_byte r = unfold nonempty in r
