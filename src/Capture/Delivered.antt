-- ===== src/Capture/Delivered.antt =====
-- internal/capture/wasapi_windows.go: what processCaptureBuffer delivers to Read.
use mathlib.Core.Path.{subst}
use native.Mathlib.Decide.{ℕ_discrete, dec_lt}
use soundswamp.Prelude.{
  ℕ, ◌+◌, ◌*◌, ◌<◌, ◌≡◌, refl, sym, ap, ◌∙◌, ◌⊎◌, inl, inr, List, [], ◌∷◌, ◌++◌, arith, length,
  length-append, All, Bool-cases,
}
use soundswamp.Ring.{Ring, write_sample, write_samples}
use soundswamp.Ring.Fifo.{IsQueue, write_samples-IsQueue}
use soundswamp.Capture.{Float32, WaveFormatEx}
use soundswamp.Capture.Convert
use soundswamp.Capture.Convert.{Converted, written, convert}
use soundswamp.Capture.Packets.{
  Round, Event, acquired, released, Outcome, done, panic, outside, logged, packet_samples, process,
}
use soundswamp.Capture.Rounds.{
  IsAligned, Backed, HasPacket, Ends, Heard, Captured, packet_samples_total,
}

-- Each buffer is released, with its own number of frames, before the next is acquired; only an empty one,
-- which ends the loop, is not.
abbrev pub Paired : List Event → Type 0
Paired [] = Unit {0}
Paired (acquired k ∷ []) = k ≡ 0
Paired (acquired k ∷ released j ∷ es) = (j ≡ k) × Paired es
Paired (acquired k ∷ acquired j ∷ es) = ⊥
Paired (released k ∷ es) = ⊥

abbrev pub frames_released : List Event → ℕ
frames_released [] = 0
frames_released (acquired k ∷ es) = frames_released es
frames_released (released k ∷ es) = k + frames_released es

module _ (f : Float32) where
  write_samples-append :
      (ss ts : List f.Carrier) (w : Ring f.Carrier)
      → write_samples f.zero (ss ++ ts) w ≡ write_samples f.zero ts (write_samples f.zero ss w)
  unfolding write_samples
  write_samples-append [] ts w = refl
  write_samples-append (s ∷ ss) ts w = write_samples-append ss ts (write_sample f.zero s w)

  -- An outcome in which some samples were written and the buffers released.
  record Delivered (mix : WaveFormatEx) (ms : List Round) (w : Ring f.Carrier)
      (r : Outcome f.Carrier) : Type 0 where
    samples : List f.Carrier
    events : List Event
    made : r ≡ done (write_samples f.zero samples w) events
    paired : Paired events
    count : length samples ≡ frames_released events * mix.channels
    captured : Captured f mix ms samples

  nothing-Delivered :
      (mix : WaveFormatEx) (ms : List Round) (w : Ring f.Carrier)
      → Captured f mix ms []
      → Delivered mix ms w (done w [])
  nothing-Delivered mix ms w c = record {
    captured = c;
    samples = [];
    events = [];
    made = unfold write_samples in refl;
    paired = tt;
    count = omega arith;
  }

  empty-Delivered :
      (mix : WaveFormatEx) (ms : List Round) (w : Ring f.Carrier)
      → Captured f mix ms []
      → Delivered mix ms w (done w (acquired 0 ∷ []))
  empty-Delivered mix ms w c = record {
    captured = c;
    samples = [];
    events = acquired 0 ∷ [];
    made = unfold write_samples in refl;
    paired = refl;
    count = omega arith;
  }

  packet-Delivered :
      (mix : WaveFormatEx) (m : Round) (ms : List Round) (w : Ring f.Carrier) (ss : List f.Carrier)
      (rest : Outcome f.Carrier)
      → HasPacket m
      → Heard f mix m ss
      → Delivered mix ms (write_samples f.zero ss w) rest
      → Delivered mix (m ∷ ms) w (logged (acquired m.num_frames ∷ released m.num_frames ∷ []) rest)
  packet-Delivered mix m ms w ss rest has heard v = record {
    captured = inr (has, ss, v.samples, refl, heard, v.captured);
    samples = ss ++ v.samples;
    events = acquired m.num_frames ∷ released m.num_frames ∷ v.events;
    made =
        ap (λ r. logged (acquired m.num_frames ∷ released m.num_frames ∷ []) r) v.made
        ∙ unfold logged in
          ap (λ x. done x (acquired m.num_frames ∷ released m.num_frames ∷ v.events))
            (sym (write_samples-append ss v.samples w));
    paired = (refl, v.paired);
    count = grind (arith, length-append ss v.samples, v.count, heard.0);
  }

  buffer-Delivered :
      (mix : WaveFormatEx) (m : Round) (ms : List Round) (w : Ring f.Carrier)
      → IsAligned mix
      → Backed mix m
      → HasPacket m
      → ((w' : Ring f.Carrier) → Delivered mix ms w' (process f mix ms w'))
      → Delivered mix (m ∷ ms) w (elim (packet_samples f mix m) [
        | Convert.panic ↦ panic
        | Convert.outside ↦ outside
        | written samples ↦
            logged
              (acquired m.num_frames ∷ released m.num_frames ∷ [])
              (process f mix ms (write_samples f.zero samples w))
      ])
  buffer-Delivered mix m ms w v backed has rest =
      let (ss, e, heard) = packet_samples_total f mix m v backed has.some_frame in
      rw e (packet-Delivered mix m ms w ss _ has heard (rest (write_samples f.zero ss w)))

  -- A round of the loop ends it, ends it at an empty buffer, or takes a packet.
  process-cases :
      (mix : WaveFormatEx) (m : Round) (ms : List Round) (w : Ring f.Carrier)
      → (Ends m × (process f mix (m ∷ ms) w ≡ done w []))
        ⊎ ((m.num_frames ≡ 0) × (process f mix (m ∷ ms) w ≡ done w (acquired 0 ∷ [])))
        ⊎ (HasPacket m
            × (process f mix (m ∷ ms) w ≡ elim (packet_samples f mix m) [
              | Convert.panic ↦ panic
              | Convert.outside ↦ outside
              | written samples ↦
                  logged
                    (acquired m.num_frames ∷ released m.num_frames ∷ [])
                    (process f mix ms (write_samples f.zero samples w))
            ]))
  unfolding process
  process-cases mix m ms w = elim (Bool-cases m.running) [
    | inr idle ↦ inl (inl idle, rw (idle, process) refl)
    | inl runs ↦ elim (ℕ_discrete m.next_hr 0) [
      | no failed ↦ inl (inr (inl failed), ground arith)
      | yes next_ok ↦ elim (ℕ_discrete m.num_frames_in_next_packet 0) [
        | yes idle ↦ inl (inr (inr (inl idle)), ground arith)
        | no announced ↦ elim (ℕ_discrete m.get_hr 0) [
          | no failed ↦ inl (inr (inr (inr (inl failed))), ground arith)
          | yes get_ok ↦ elim (ℕ_discrete m.num_frames 0) [
            | yes empty ↦ inr (inl (empty, ground arith))
            | no full ↦ inr (
                inr (
                  record {
                    runs = runs;
                    next_ok = next_ok;
                    announced = announced;
                    get_ok = get_ok;
                    some_frame = omega arith;
                  },
                  ground arith,
                ))
          ]
        ]
      ]
    ]
  ]

  process-Delivered :
      (mix : WaveFormatEx) (ms : List Round) (w : Ring f.Carrier)
      → IsAligned mix
      → All (Backed mix) ms
      → Delivered mix ms w (process f mix ms w)
  process-Delivered mix [] w v backed = unfold process in nothing-Delivered mix [] w refl
  process-Delivered mix (m ∷ ms) w v backed =
      let next : (w' : Ring f.Carrier) → Delivered mix ms w' (process f mix ms w') =
        λ w'. process-Delivered mix ms w' v backed.1 in
      elim (process-cases mix m ms w) [
        | inl (ends, e) ↦
            subst (Delivered mix (m ∷ ms) w) (sym e)
              (nothing-Delivered mix (m ∷ ms) w (inl (ends, refl)))
        | inr (inl (none_left, e)) ↦
            subst (Delivered mix (m ∷ ms) w) (sym e)
              (empty-Delivered mix (m ∷ ms) w (inl (inr (inr (inr (inr none_left))), refl)))
        | inr (inr (has, e)) ↦
            subst (Delivered mix (m ∷ ms) w) (sym e)
              (buffer-Delivered mix m ms w v backed.0 has next)
      ]

  -- processCaptureBuffer, over any rounds whose buffers have the bytes that they announce, neither panics
  -- nor reads outside a buffer. Every buffer is released with its own number of frames before the next is
  -- acquired, except an empty one, which ends the loop. The samples written are, packet by packet until a
  -- round ends the loop, one for each channel of each frame: zeros where the packet is flagged silent or
  -- its format is unknown, and otherwise, in order, the values that its bytes stand for as 32-bit floats
  -- or as integers of 16 or 24 bits. They join the end of the ring's queue in order, unless there are more
  -- of them than fit the ring.
  pub process_delivers :
      (mix : WaveFormatEx) (ms : List Round) (w : Ring f.Carrier) (q : List f.Carrier)
      → IsAligned mix
      → All (Backed mix) ms
      → IsQueue f.zero w q
      → (w' : Ring f.Carrier) × (ss : List f.Carrier) × (events : List Event) × (process f mix ms w
          ≡ done w' events)
        × Paired events
        × Captured f mix ms ss
        × (length ss ≡ frames_released events * mix.channels)
        × ((w.ring_size < length q + length ss) ⊎ IsQueue f.zero w' (q ++ ss))
  process_delivers mix ms w q v backed queue =
      let d = process-Delivered mix ms w v backed in
      (
        write_samples f.zero d.samples w,
        d.samples,
        d.events,
        d.made,
        d.paired,
        d.captured,
        d.count,
        elim (dec_lt w.ring_size (length q + length d.samples)) [
          | yes over ↦ inl over
          | no fits ↦ inr (write_samples-IsQueue f.zero w q d.samples queue (omega arith))
        ],
      )
