-- ===== src/Ring/Fifo.antt =====
-- internal/capture/wasapi_windows.go: the ring is a queue while the writer is at most one ring ahead.
use mathlib.Core.Path.{subst}
use native.Mathlib.Decide.{dec_lt}
use soundswamp.Prelude.{
  ℕ, zero, suc, ◌+◌, ◌*◌, ◌%◌, ◌≤◌, ◌<◌, ◌≡◌, refl, ap, ap₂, ◌∙◌, sym, ◌⊎◌, inl, inr, true, List,
  [], ◌∷◌, ◌++◌, arith, length, get_or, length-set, length-append, take, drop, append-nil,
  append_assoc, length-replicate,
}
use soundswamp.Surround.Rows.{get_or-set}
use soundswamp.Ring.{
  Ring, write_sample, write_samples, read_samples, ring_available, start_ring, read, blocks,
  read_ring,
}
use soundswamp.Ring.Slots.{slots_differ, wrap_mod}

module _ {A : Type 0} (silence : A) where
  -- The sample at a position.
  abbrev slot : Ring A → ℕ → A
  slot w k = get_or w.ring_buf (k % w.ring_size) silence

  -- The ring holds the samples `q` from position `k` on.
  abbrev Holds : Ring A → ℕ → List A → Type 0
  Holds w k [] = Unit {0}
  Holds w k (x ∷ q) = (slot w k ≡ x) × Holds w (k + 1) q

  -- The ring stands for the queue `q`, oldest first.
  pub record IsQueue (w : Ring A) (q : List A) : Type 0 where
    pub sized : length w.ring_buf ≡ w.ring_size
    pub positive : 0 < w.ring_size
    pub pending : w.ring_write ≡ w.ring_read + length q
    pub holds : Holds w w.ring_read q

  -- A write at a position that is not one of the pending ones, but less than a ring ahead of them.
  Holds-write :
      (w : Ring A) (k : ℕ) (q : List A) (s : A)
      → length w.ring_buf ≡ w.ring_size
      → 0 < w.ring_size
      → w.ring_write ≡ k + length q
      → length q < w.ring_size
      → Holds w k q
      → Holds (write_sample silence s w) k (q ++ (s ∷ []))
  unfolding write_sample
  Holds-write w k [] s sized pos at room h = (
    ground (
      arith,
      at,
      get_or-set w.ring_buf (w.ring_write % w.ring_size) (k % w.ring_size) s silence (omega arith),
      ap (λ (t : ℕ). t % w.ring_size) {x = w.ring_write} {y = k} (omega arith),
    ),
    tt,
  )
  Holds-write w k (x ∷ q) s sized pos at room h = (
    ground (
      arith,
      h.0,
      get_or-set w.ring_buf (w.ring_write % w.ring_size) (k % w.ring_size) s silence (omega arith),
      slots_differ k (suc (length q)) w.ring_size (omega arith) (omega arith),
      ap (λ (t : ℕ). t % w.ring_size) {x = w.ring_write} {y = k + suc (length q)} (omega arith),
    ),
    Holds-write w (k + 1) q s sized pos (omega arith) (omega arith) h.1,
  )

  write_sample-IsQueue :
      (w : Ring A) (q : List A) (s : A)
      → IsQueue w q
      → length q < w.ring_size
      → IsQueue (write_sample silence s w) (q ++ (s ∷ []))
  write_sample-IsQueue w q s v room = record {
    sized = unfold write_sample in (length-set w.ring_buf (w.ring_write % w.ring_size) s ∙ v.sized);
    positive = unfold write_sample in v.positive;
    pending = unfold write_sample in omega (arith, v.pending, length-append q (s ∷ []));
    holds =
        unfold write_sample in
        Holds-write w w.ring_read q s v.sized v.positive v.pending room v.holds;
  }

  -- A packet that fits the free part of the ring joins the end of the queue, sample by sample.
  pub write_samples-IsQueue :
      (w : Ring A) (q ss : List A)
      → IsQueue w q
      → length q + length ss ≤ w.ring_size
      → IsQueue (write_samples silence ss w) (q ++ ss)
  unfolding write_samples
  write_samples-IsQueue w q [] v room = subst (IsQueue w) (sym (append-nil q)) v
  write_samples-IsQueue w q (s ∷ ss) v room =
      subst (IsQueue (write_samples silence ss (write_sample silence s w)))
        (append_assoc q (s ∷ []) ss)
        (write_samples-IsQueue (write_sample silence s w) (q ++ (s ∷ [])) ss
          (write_sample-IsQueue w q s v (omega arith))
          (unfold write_sample in omega (arith, length-append q (s ∷ []))))

  read_samples-IsQueue :
      (n : ℕ) (w : Ring A) (q : List A)
      → IsQueue w q
      → n ≤ length q
      → ((read_samples silence n w).0 ≡ take n q) × IsQueue (read_samples silence n w).1 (drop n q)
  unfolding read_samples
  read_samples-IsQueue zero w q v h = (refl, v)
  read_samples-IsQueue (suc n) w [] v h = absurd (omega arith)
  read_samples-IsQueue (suc n) w (x ∷ q) v h =
      let rest =
        read_samples-IsQueue n (record w { ring_read = w.ring_read + 1 }) q
          (record {
            sized = v.sized;
            positive = v.positive;
            pending = omega (arith, v.pending);
            holds = v.holds.1;
          })
          (omega arith) in
      (ap₂ ◌∷◌ v.holds.0 rest.0, rest.1)

  -- Read on a running ring that stands for a queue: it waits while fewer samples are pending than it
  -- wants, and else returns the oldest ones in their order and leaves the rest pending.
  pub read_ring_lem :
      (n : ℕ) (w : Ring A) (q : List A)
      → IsQueue w q
      → w.running ≡ true
      → ((length q < n) × (read_ring silence n w ≡ blocks))
        ⊎ ((w' : Ring A) × (n ≤ length q)
            × (read_ring silence n w ≡ read (take n q) w')
            × IsQueue w' (drop n q))
  read_ring_lem n w q v running = elim (dec_lt (length q) n) [
    | yes few ↦ inl (few, unfold read_ring ring_available in ground (arith, v.pending))
    | no enough ↦
        let out = read_samples-IsQueue n w q v (omega arith) in
        inr (
          (read_samples silence n w).1,
          omega arith,
          unfold read_ring ring_available in ground (arith, v.pending, out.0),
          out.1,
        )
  ]

  -- The ring that Start makes is the empty queue, for a format with samples.
  pub start_ring-IsQueue :
      (sample_rate channels : ℕ)
      → 0 < sample_rate * channels
      → IsQueue (start_ring silence sample_rate channels) []
  unfolding start_ring
  start_ring-IsQueue sample_rate channels h = record {
    sized = length-replicate (sample_rate * channels * 2) silence;
    positive = omega arith;
    pending = omega arith;
    holds = tt;
  }

  -- The writer does not look at the reader: on a full ring the next sample overwrites the oldest pending
  -- one, more samples are then said to be available than the ring has, and the next Read begins with the
  -- newest sample.
  pub overrun_overwrites :
      (w : Ring A) (q : List A) (s : A)
      → IsQueue w q
      → length q ≡ w.ring_size
      → (ring_available (write_sample silence s w) ≡ w.ring_size + 1)
        × ((read_samples silence 1 (write_sample silence s w)).0 ≡ s ∷ [])
  unfolding ring_available write_sample read_samples
  overrun_overwrites w q s v full = (
    omega (arith, v.pending),
    ap (λ x. x ∷ [])
        (ground (
          arith,
          v.sized,
          get_or-set w.ring_buf (w.ring_write % w.ring_size) (w.ring_read % w.ring_size) s silence
              (omega (arith, v.sized, v.positive)),
          wraps,
        )),
  )
    where
      wraps : w.ring_write % w.ring_size ≡ w.ring_read % w.ring_size
      wraps = wrap_mod w.ring_write w.ring_read w.ring_size (omega (arith, v.pending))
