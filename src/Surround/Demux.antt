-- ===== src/Surround/Demux.antt =====
-- internal/surround/demux.go: Demux and DemuxInto put sample `s` of channel `ch` where the interleaved
-- input has its sample `s * channels + ch`.
use native.Mathlib.Decide.{dec_lt, ℕ_discrete}
use soundswamp.Prelude.{
  ℕ, zero, suc, ◌+◌, ◌*◌, ◌/◌, ◌%◌, ◌≤◌, ◌<◌, ◌≡◌, ◌≢◌, refl, ap, ◌∙◌, ◌⊎◌, inl, inr, false, ◌&&◌,
  List, [], ◌==◌, ltb, leb, if◌then◌else◌, arith, length, get_or, replicate, Bool-cases,
  length-replicate,
}
use soundswamp.Surround.{
  ok, err, panic, not_multiple, few_buffers, short_buffer, write, frame_loop, demux_loop, demux,
  roomy, demux_into,
}
use soundswamp.Surround.Rows.{
  Room, replicate-Room, write-Room, at, at-write, length-write, roomy-Room, row_length,
  write-row_length, get_or-replicate,
}

module _ {ℓ} {A : Type ℓ} (silence : A) where
  frame_loop-Room :
      (rounds ch s i n p : ℕ) (inter : List A) (output : List (List A))
      → ch + rounds ≤ n
      → Room n p output
      → Room n p (frame_loop silence rounds ch s i inter output)
  unfolding frame_loop
  frame_loop-Room zero ch s i n p inter output h r = r
  frame_loop-Room (suc k) ch s i n p inter output h r =
      frame_loop-Room k (ch + 1) s i n p inter
        (write silence output ch s (get_or inter (i + ch) silence)) (omega arith)
        (write-Room silence n p output ch s (get_or inter (i + ch) silence) (omega (arith, r.rows))
          r)

  frame_loop-at :
      (rounds ch s i n p : ℕ) (inter : List A) (output : List (List A)) (ch' s' : ℕ)
      → ch + rounds ≤ n
      → s < p
      → Room n p output
      → at silence (frame_loop silence rounds ch s i inter output) ch' s' ≡ (
          if (leb ch ch' && ltb ch' (ch + rounds)) && s == s'
          then get_or inter (i + ch') silence
          else at silence output ch' s')
  unfolding frame_loop
  frame_loop-at zero ch s i n p inter output ch' s' h hs r = ground arith
  frame_loop-at (suc k) ch s i n p inter output ch' s' h hs r =
      let v = get_or inter (i + ch) silence in
      ground (
        arith,
        frame_loop-at k (ch + 1) s i n p inter (write silence output ch s v) ch' s' (omega arith) hs
            (write-Room silence n p output ch s v (omega (arith, r.rows)) r),
        at-write silence n p output ch s ch' s' v r (omega arith) hs,
        ap (λ (k : ℕ). get_or inter k silence) {x = i + ch} {y = i + ch'},
      )

  frame_loop-length :
      (rounds ch s i : ℕ) (inter : List A) (output : List (List A))
      → length (frame_loop silence rounds ch s i inter output) ≡ length output
  unfolding frame_loop
  frame_loop-length zero ch s i inter output = refl
  frame_loop-length (suc k) ch s i inter output =
      frame_loop-length k (ch + 1) s i inter _ ∙ length-write silence output ch s _

frame_index : (s n : ℕ) → 0 < n → s * n / n ≡ s
frame_index s n h = grind arith

whole_frames : (l n : ℕ) → 0 < n → l % n ≡ 0 → l / n * n ≡ l
whole_frames l n h e = grind arith

module _ {A : Type 0} (silence : A) where
  frame_loop-row :
      (rounds ch s i c : ℕ) (inter : List A) (output : List (List A))
      → row_length (frame_loop silence rounds ch s i inter output) c ≡ row_length output c
  unfolding frame_loop
  frame_loop-row zero ch s i c inter output = refl
  frame_loop-row (suc k) ch s i c inter output =
      let v = get_or inter (i + ch) silence in
      frame_loop-row k (ch + 1) s i c inter (write silence output ch s v)
      ∙ write-row_length silence output ch s c v

  pub demux_loop-shape :
      (rounds n i c : ℕ) (inter : List A) (output : List (List A))
      → (length (demux_loop silence rounds n i inter output) ≡ length output)
        × (row_length (demux_loop silence rounds n i inter output) c ≡ row_length output c)
  unfolding demux_loop
  demux_loop-shape zero n i c inter output = (refl, refl)
  demux_loop-shape (suc k) n i c inter output =
      let frame = frame_loop silence n 0 (i / n) i inter output in
      let rest = demux_loop-shape k n (i + n) c inter frame in
      (
        rest.0 ∙ frame_loop-length silence n 0 (i / n) i inter output,
        rest.1 ∙ frame_loop-row n 0 (i / n) i c inter output,
      )

  -- From frame `first` on, `rounds` frames are spread over the buffers.
  pub demux_loop-at :
      (rounds first n i p : ℕ) (inter : List A) (output : List (List A)) (ch s : ℕ)
      → 0 < n
      → i ≡ first * n
      → first + rounds ≤ p
      → Room n p output
      → at silence (demux_loop silence rounds n i inter output) ch s ≡ (
          if (leb first s && ltb s (first + rounds)) && ltb ch n
          then get_or inter (s * n + ch) silence
          else at silence output ch s)
  unfolding demux_loop
  demux_loop-at zero first n i p inter output ch s hn hi hp r = ground arith
  demux_loop-at (suc k) first n i p inter output ch s hn hi hp r =
      let frame = frame_loop silence n 0 (i / n) i inter output in
      let here : i / n ≡ first = ap (λ (t : ℕ). t / n) hi ∙ frame_index first n hn in
      ground (
        arith,
        here,
        hi,
        demux_loop-at k (first + 1) n (i + n) p inter frame ch s hn (grind arith) (omega arith)
            (frame_loop-Room silence n 0 (i / n) i n p inter output (omega arith) r),
        frame_loop-at silence n 0 (i / n) i n p inter output ch s (omega arith) (omega arith) r,
        ap (λ (t : ℕ). get_or inter (t * n + ch) silence) {x = first} {y = s},
      )

  -- What DemuxInto does to every sample of every buffer, on every branch: no channels panics; an input
  -- that is no whole number of frames, too few buffers, or a buffer that is too short is an error; else
  -- sample `s` of buffer `ch` is sample `s * channels + ch` of the input, for the channels and frames
  -- that there are, and every other sample and the sizes of the buffers are as before.
  pub demux_into_lem :
      (n ch s : ℕ) (inter : List A) (output : List (List A))
      → ((n ≡ 0) × (demux_into silence n inter output ≡ panic))
        ⊎ ((n ≢ 0)
            × (length inter % n ≢ 0)
            × (demux_into silence n inter output ≡ err not_multiple))
        ⊎ ((length output < n) × (demux_into silence n inter output ≡ err few_buffers))
        ⊎ ((roomy n (length inter / n) output ≡ false)
            × (demux_into silence n inter output ≡ err short_buffer))
        ⊎ ((out : List (List A)) × (demux_into silence n inter output ≡ ok out)
            × (length out ≡ length output)
            × (row_length out ch ≡ row_length output ch)
            × (at silence out ch s ≡ (
                if ltb s (length inter / n) && ltb ch n
                then get_or inter (s * n + ch) silence
                else at silence output ch s)))
  demux_into_lem n ch s inter output = elim (ℕ_discrete n 0) [
    | yes none ↦ inl (none, unfold demux_into in ground arith)
    | no some ↦ elim (ℕ_discrete (length inter % n) 0) [
      | no ragged ↦ inr (inl (some, ragged, unfold demux_into in ground arith))
      | yes whole ↦ elim (dec_lt (length output) n) [
        | yes few ↦ inr (inr (inl (few, unfold demux_into in ground arith)))
        | no enough ↦ elim (Bool-cases (roomy n (length inter / n) output)) [
          | inr short ↦ inr (inr (inr (inl (short, unfold demux_into in ground arith))))
          | inl room ↦
              let p = length inter / n in
              let shape = demux_loop-shape p n 0 ch inter output in
              inr (
                inr (
                  inr (
                    inr (
                      demux_loop silence p n 0 inter output,
                      unfold demux_into in ground arith,
                      shape.0,
                      shape.1,
                      ground (
                        arith,
                        demux_loop-at p 0 n 0 p inter output ch s (omega arith) (omega arith)
                            (omega arith) (roomy-Room n p output room),
                      ),
                    ))))
        ]
      ]
    ]
  ]

  -- Demux of whole frames gives one buffer for each channel, each with one sample for each frame, and
  -- sample `s` of channel `ch` is sample `s * channels + ch` of the input.
  pub demux_lem :
      (n ch s : ℕ) (inter : List A)
      → length inter % n ≡ 0
      → ch < n
      → s < length inter / n
      → (out : List (List A)) × (demux silence n inter ≡ ok out)
        × (length out ≡ n)
        × (row_length out ch ≡ length inter / n)
        × (at silence out ch s ≡ get_or inter (s * n + ch) silence)
  demux_lem n ch s inter whole hc hs =
      let p = length inter / n in
      let fresh = replicate n (replicate p silence) in
      let shape = demux_loop-shape p n 0 ch inter fresh in
      (
        demux_loop silence p n 0 inter fresh,
        unfold demux in ground arith,
        shape.0 ∙ length-replicate n (replicate p silence),
        shape.1
            ∙ ap length (get_or-replicate n ch (replicate p silence) [] hc)
            ∙ length-replicate p silence,
        ground (
          arith,
          demux_loop-at p 0 n 0 p inter fresh ch s (omega arith) (omega arith) (omega arith)
              (replicate-Room n p silence),
        ),
      )
