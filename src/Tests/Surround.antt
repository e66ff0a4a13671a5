-- ===== src/Tests/Surround.antt =====
-- internal/surround/demux.go: two frames of two channels, and one of six.
use soundswamp.Prelude.{
  ℕ, zero, suc, ◌+◌, ◌*◌, ◌/◌, ◌%◌, ◌≤◌, ◌<◌, ◌≡◌, ◌≢◌, refl, ◌⊎◌, false, ◌&&◌, List, [], ◌∷◌, ltb,
  arith, if◌then◌else◌, length, get_or,
}
use soundswamp.Prelude.Table.{string_eq}
use soundswamp.Surround.{
  ok, err, panic, not_multiple, few_buffers, short_buffer, roomy, demux_into, layout_51,
  ChannelLayout,
}
use soundswamp.Surround.Rows.{at, row_length}
use soundswamp.Surround.Demux.{demux_into_lem}
use soundswamp.Surround.Downmix.{
  downmix_to_stereo_into, left_mix, right_mix, downmix_to_stereo_into_lem,
}

demux_into_lem_example :
    let A : Type 0 = ℕ in
    let silence : ℕ = 0 in
    let n : ℕ = 2 in
    let ch : ℕ = 1 in
    let s : ℕ = 0 in
    let inter : List A = 1 ∷ 2 ∷ 3 ∷ 4 ∷ [] in
    let output : List (List A) = (0 ∷ 0 ∷ []) ∷ (0 ∷ 0 ∷ 9 ∷ []) ∷ [] in
    ((n ≡ 0) × (demux_into silence n inter output ≡ panic))
    ⊎ ((n ≢ 0) × (length inter % n ≢ 0) × (demux_into silence n inter output ≡ err not_multiple))
    ⊎ ((length output < n) × (demux_into silence n inter output ≡ err few_buffers))
    ⊎ ((roomy n (length inter / n) output ≡ false)
        × (demux_into silence n inter output ≡ err short_buffer))
    ⊎ ((out : List (List A)) × (demux_into silence n inter output ≡ ok out)
        × (length out ≡ length output)
        × (row_length out ch ≡ row_length output ch)
        × (at silence out ch s ≡ (
            if ltb s (length inter / n) && ltb ch n
            then get_or inter (s * n + ch) silence
            else at silence output ch s)))
demux_into_lem_example =
    demux_into_lem 0 2 1 0 (1 ∷ 2 ∷ 3 ∷ 4 ∷ []) ((0 ∷ 0 ∷ []) ∷ (0 ∷ 0 ∷ 9 ∷ []) ∷ [])

abbrev six : List (List ℕ)
six = (1 ∷ []) ∷ (2 ∷ []) ∷ (3 ∷ []) ∷ (4 ∷ []) ∷ (5 ∷ []) ∷ (6 ∷ []) ∷ []

six_long : (ch : ℕ) → ch < 6 → 1 ≤ length (get_or six ch [])
six_long zero h = omega arith
six_long (suc zero) h = omega arith
six_long (suc (suc zero)) h = omega arith
six_long (suc (suc (suc zero))) h = omega arith
six_long (suc (suc (suc (suc zero)))) h = omega arith
six_long (suc (suc (suc (suc (suc zero))))) h = omega arith
six_long (suc (suc (suc (suc (suc (suc ch)))))) h = absurd (omega arith)

downmix_to_stereo_into_lem_example :
    let A : Type 0 = ℕ in
    let silence : ℕ = 0 in
    let channels : List (List A) = six in
    let layout : ChannelLayout = layout_51 in
    let out : List A = 0 ∷ 0 ∷ 9 ∷ [] in
    let j : ℕ = 0 in
    (out' : List A) × (downmix_to_stereo_into 0 ◌+◌ ◌*◌ 1 channels layout out ≡ ok out')
    × (length out' ≡ length out)
    × (get_or out' (j * 2) silence ≡ (
        if ltb j (length (get_or channels 0 []))
        then left_mix 0 ◌+◌ ◌*◌ 1 channels j
        else get_or out (j * 2) silence))
    × (get_or out' (j * 2 + 1) silence ≡ (
        if ltb j (length (get_or channels 0 []))
        then right_mix 0 ◌+◌ ◌*◌ 1 channels j
        else get_or out (j * 2 + 1) silence))
downmix_to_stereo_into_lem_example =
    downmix_to_stereo_into_lem 0 ◌+◌ ◌*◌ 1 six layout_51 (0 ∷ 0 ∷ 9 ∷ []) 0 refl (omega arith)
      six_long (omega arith)
