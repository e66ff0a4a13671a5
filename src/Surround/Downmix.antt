-- ===== src/Surround/Downmix.antt =====
-- internal/surround/demux.go: DownmixToStereoInto. Addition, multiplication and the coefficient 0.707 of
-- float32 are parameters.
use soundswamp.Prelude.{
  true, false, ℕ, zero, suc, ◌+◌, ◌*◌, ◌≤◌, ◌<◌, ◌≡◌, refl, ap, ◌∙◌, none, some, List, [], ◌∷◌,
  ◌==◌, not, ltb, leb, if◌then◌else◌, arith, length, get_or, get_elem?, set, length-set,
}
use soundswamp.Surround.{Result, ok, err, panic, wrong_channels, small_output, ChannelLayout, ◌>>=◌}
use soundswamp.Surround.Rows.{get_or-set}

module _ {A : Type 0} (silence : A) (add mul : A → A → A) (mix : A) where
  -- channels[ch][i]
  read : List (List A) → ℕ → ℕ → Result A
  read channels ch i = elim (get_elem? (get_or channels ch []) i) [ none ↦ panic | some v ↦ ok v ]

  -- A channel that only layouts of at least `least` channels have.
  read_from : ℕ → ℕ → List (List A) → ℕ → ℕ → Result A
  unfolding read
  read_from count least channels ch i = if leb least count then read channels ch i else ok silence

  -- The body of the two loops: the samples for out[i*2] and out[i*2+1].
  unfoldable pub stereo_frame : ℕ → List (List A) → ℕ → Result (A × A)
  unfolding read read_from
  stereo_frame count channels i =
      if count == 2 then (do l ← read channels 0 i; r ← read channels 1 i; ok (l, r)) else do
        fl ← read channels 0 i
        fr ← read channels 1 i
        c ← read_from count 3 channels 2 i
        sl ← read_from count 5 channels 4 i
        sr ← read_from count 6 channels 5 i
        ok (add (add fl (mul mix c)) (mul mix sl), add (add fr (mul mix c)) (mul mix sr))

  -- The loop, for `rounds` frames from `i` on.
  unfoldable pub mix_loop : ℕ → (ℕ → Result (A × A)) → ℕ → List A → Result (List A)
  mix_loop zero frame i out = ok out
  mix_loop (suc rounds) frame i out = elim (frame i) [
    | ok (l, r) ↦ mix_loop rounds frame (i + 1) (set (set out (i * 2) l) (i * 2 + 1) r)
    | err e ↦ err e
    | panic ↦ panic
  ]

  unfoldable pub downmix_to_stereo_into : List (List A) → ChannelLayout → List A → Result (List A)
  unfolding stereo_frame mix_loop
  downmix_to_stereo_into channels layout out =
      if not (length channels == layout.channels)
      then err wrong_channels
      else if length channels == 0
      then ok out
      else let n = length (get_or channels 0 []) in
        if ltb (length out) (n * 2)
        then err small_output
        else mix_loop n (stereo_frame layout.channels channels) 0 out

  -- The loop over frames that all succeed writes them in pairs, and nothing else.
  mix_loop-at :
      (rounds i j : ℕ) (frame : ℕ → Result (A × A)) (left right : ℕ → A) (out : List A)
      → ((k : ℕ) → k < i + rounds → frame k ≡ ok (left k, right k))
      → (i + rounds) * 2 ≤ length out
      → (out' : List A) × (mix_loop rounds frame i out ≡ ok out')
        × (length out' ≡ length out)
        × (get_or out' (j * 2) silence ≡ (
            if leb i j
            then (if ltb j (i + rounds) then left j else get_or out (j * 2) silence)
            else get_or out (j * 2) silence))
        × (get_or out' (j * 2 + 1) silence ≡ (
            if leb i j
            then (if ltb j (i + rounds) then right j else get_or out (j * 2 + 1) silence)
            else get_or out (j * 2 + 1) silence))
  unfolding mix_loop
  mix_loop-at zero i j frame left right out h room = (out, refl, refl, ground arith, ground arith)
  mix_loop-at (suc k) i j frame left right out h room =
      let once = set out (i * 2) (left i) in
      let twice = set once (i * 2 + 1) (right i) in
      let size : length twice ≡ length out =
        length-set once (i * 2 + 1) (right i) ∙ length-set out (i * 2) (left i) in
      let (out', e, l, even, odd) =
        mix_loop-at k (i + 1) j frame left right twice (λ k below. h k (omega arith))
          (omega (arith, size)) in
      let even_once = get_or-set out (i * 2) (j * 2) (left i) silence (omega arith) in
      let odd_once = get_or-set out (i * 2) (j * 2 + 1) (left i) silence (omega arith) in
      let in_range : i * 2 + 1 < length once = omega (arith, length-set out (i * 2) (left i)) in
      let even_twice = get_or-set once (i * 2 + 1) (j * 2) (right i) silence in_range in
      let odd_twice = get_or-set once (i * 2 + 1) (j * 2 + 1) (right i) silence in_range in
      (
        out',
        rw (h i (omega arith), mix_loop) e,
        l ∙ size,
        even ∙ ground (arith, even_once, even_twice, ap left {x = i} {y = j}),
        odd ∙ ground (arith, odd_once, odd_twice, ap right {x = i} {y = j}),
      )

  get_elem?-get_or :
      (xs : List A) (i : ℕ) → i < length xs → get_elem? xs i ≡ some (get_or xs i silence)
  get_elem?-get_or [] i h = absurd (omega arith)
  get_elem?-get_or (x ∷ xs) zero h = refl
  get_elem?-get_or (x ∷ xs) (suc i) h = get_elem?-get_or xs i (omega arith)

  -- The sample at a place of a buffer.
  abbrev pub sample_of : List (List A) → ℕ → ℕ → A
  sample_of channels ch i = get_or (get_or channels ch []) i silence

  read_ok :
      (channels : List (List A)) (ch i : ℕ)
      → i < length (get_or channels ch [])
      → read channels ch i ≡ ok (sample_of channels ch i)
  unfolding read
  read_ok channels ch i h = rw (get_elem?-get_or (get_or channels ch []) i h, read)

  read_from_ok :
      (count least : ℕ) (channels : List (List A)) (ch i : ℕ)
      → least ≤ count
      → i < length (get_or channels ch [])
      → read_from count least channels ch i ≡ ok (sample_of channels ch i)
  unfolding read_from
  read_from_ok count least channels ch i h k =
      let e : leb least count ≡ true = ground arith in rw (e, read_from) (read_ok channels ch i k)

  abbrev pub left_mix : List (List A) → ℕ → A
  left_mix channels i =
      add (add (sample_of channels 0 i) (mul mix (sample_of channels 2 i)))
        (mul mix (sample_of channels 4 i))

  abbrev pub right_mix : List (List A) → ℕ → A
  right_mix channels i =
      add (add (sample_of channels 1 i) (mul mix (sample_of channels 2 i)))
        (mul mix (sample_of channels 5 i))

  stereo_frame_ok :
      (count : ℕ) (channels : List (List A)) (n i : ℕ)
      → 6 ≤ count
      → ((ch : ℕ) → ch < 6 → n ≤ length (get_or channels ch []))
      → i < n
      → stereo_frame count channels i ≡ ok (left_mix channels i, right_mix channels i)
  unfolding stereo_frame
  stereo_frame_ok count channels n i many long h =
      let surround : (count == 2) ≡ false = ground arith in
      let at : (ch : ℕ) → ch < 6 → i < length (get_or channels ch []) =
        λ ch k. omega (arith, long ch k) in
      rw (
        surround,
        stereo_frame,
        read_ok channels 0 i (at 0 (omega arith)),
        read_ok channels 1 i (at 1 (omega arith)),
        read_from_ok count 3 channels 2 i (omega arith) (at 2 (omega arith)),
        read_from_ok count 5 channels 4 i (omega arith) (at 4 (omega arith)),
        read_from_ok count 6 channels 5 i (omega arith) (at 5 (omega arith)),
      )

  -- The downmix of six channels or more, of which the first six are at least as long as the first, into a
  -- buffer of two samples for each frame or more, succeeds: of each frame the left output sample mixes
  -- channels 0, 2 and 4, and the right one channels 1, 2 and 5; the samples after the frames stay, and so
  -- does the buffer's size.
  pub downmix_to_stereo_into_lem :
      (channels : List (List A)) (layout : ChannelLayout) (out : List A) (j : ℕ)
      → length channels ≡ layout.channels
      → 6 ≤ layout.channels
      → ((ch : ℕ) → ch < 6 → length (get_or channels 0 []) ≤ length (get_or channels ch []))
      → length (get_or channels 0 []) * 2 ≤ length out
      → (out' : List A) × (downmix_to_stereo_into channels layout out ≡ ok out')
        × (length out' ≡ length out)
        × (get_or out' (j * 2) silence ≡ (
            if ltb j (length (get_or channels 0 []))
            then left_mix channels j
            else get_or out (j * 2) silence))
        × (get_or out' (j * 2 + 1) silence ≡ (
            if ltb j (length (get_or channels 0 []))
            then right_mix channels j
            else get_or out (j * 2 + 1) silence))
  downmix_to_stereo_into_lem channels layout out j whole many long room =
      let n = length (get_or channels 0 []) in
      let (out', e, size, even, odd) =
        mix_loop-at n 0 j (stereo_frame layout.channels channels) (left_mix channels)
          (right_mix channels) out
          (λ k below. stereo_frame_ok layout.channels channels n k many long (omega arith))
          (omega arith) in
      (
        out',
        unfold downmix_to_stereo_into in ground arith,
        size,
        even ∙ ground arith,
        odd ∙ ground arith,
      )
