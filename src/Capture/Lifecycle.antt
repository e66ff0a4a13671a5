-- ===== src/Capture/Lifecycle.antt =====
-- internal/capture/wasapi_windows.go: histories of Start and Stop.
use soundswamp.Prelude.{
  ℕ, ◌*◌, ◌≡◌, refl, inl, inr, true, false, Option, none, some, List, [], ◌∷◌, arith, length,
  Bool-cases, length-replicate,
}
use soundswamp.Prelude.Float.{Float, IsFloat}
use soundswamp.Ring.{start_ring}
use soundswamp.Capture.{Float32}
use soundswamp.Capture.Device.{
  Answers, Error, WasapiCapture, new_wasapi_capture, measure_loopback_latency, begin_stream, start,
  stop, let_go, release_all, com_refused, Event,
}

module _ (f : Float) (s : Float32) where
  -- Start and Stop, one after the other.
  pub data Call : Type 0 where
    start_with : Answers f → Call
    stop_it : Call

  -- `none` is a panic.
  unfoldable pub run : List Call → WasapiCapture f s → Option (WasapiCapture f s)
  run [] w = some w
  run (start_with a ∷ cs) w = run cs (start f s a w).0
  run (stop_it ∷ cs) w = elim (stop f s w) [ none ↦ none | some (w', es) ↦ run cs w' ]

  -- What holds between calls: a running capture has an open stopChan, so that Stop does not panic, and a
  -- loopback latency of 5 ms at least; the ring's storage is as large as its size.
  pub record Inv (w : WasapiCapture f s) : Type 0 where
    pub stoppable : w.ring.running ≡ true → w.stop_open ≡ true
    pub latency : w.ring.running ≡ true → f.lt w.loopback_latency_ms (f.lit 50) ≡ false
    pub sized : length w.ring.ring_buf ≡ w.ring.ring_size

  measure-floor :
      (v : IsFloat f) (audio_client hr : ℕ) (ms : f.Carrier)
      → f.lt (measure_loopback_latency f s audio_client hr ms) (f.lit 50) ≡ false
  unfolding measure_loopback_latency
  measure-floor v audio_client hr ms = ground (
    arith,
    v.lt-lit 150 50 (omega arith) (omega arith),
    v.lt-lit 50 50 (omega arith) (omega arith),
  )

  start-Inv :
      (v : IsFloat f) (a : Answers f) (w : WasapiCapture f s) → Inv w → Inv (start f s a w).0
  unfolding start begin_stream start_ring
  start-Inv v a w i = record {
    stoppable = ground (arith, i.stoppable);
    latency = ground (arith, i.latency, measure-floor v a.audio_client a.latency_hr a.latency_ms);
    sized =
        ground
          (arith, i.sized, length-replicate (a.mix.samples_per_sec * a.mix.channels * 2) s.zero);
  }

  stop-Inv :
      (w : WasapiCapture f s)
      → Inv w
      → (w' : WasapiCapture f s) × (es : List Event) × (stop f s w ≡ some (w', es))
        × Inv w'
        × (w'.ring.running ≡ false)
  unfolding stop
  stop-Inv w i = elim (Bool-cases w.ring.running) [
    | inr idle ↦ (w, [], rw (idle, stop), i, idle)
    | inl runs ↦ (
      let_go f s w,
      release_all f s w,
      rw (runs, i.stoppable runs, stop),
      unfold let_go in record { stoppable = λ h. cc h; latency = λ h. cc h; sized = i.sized },
      unfold let_go in refl,
    )
  ]

  run-Inv :
      (v : IsFloat f) (cs : List Call) (w : WasapiCapture f s)
      → Inv w
      → (w' : WasapiCapture f s) × (run cs w ≡ some w') × Inv w'
  unfolding run
  run-Inv v [] w i = (w, refl, i)
  run-Inv v (start_with a ∷ cs) w i = run-Inv v cs (start f s a w).0 (start-Inv v a w i)
  run-Inv v (stop_it ∷ cs) w i =
      let (w1, es, e, i1, idle) = stop-Inv w i in
      let (w2, e2, i2) = run-Inv v cs w1 i1 in (w2, rw (e, run) e2, i2)

  -- No history of calls of Start and Stop on a new capture panics, whatever Windows answers. After it, a
  -- capture that runs can be stopped and has a loopback latency of 5 ms at least, and the ring's storage
  -- has the ring's size.
  pub history-Inv :
      (cs : List Call)
      → IsFloat f
      → (w : WasapiCapture f s) × (run cs (new_wasapi_capture f s) ≡ some w) × Inv w
  unfolding new_wasapi_capture
  history-Inv cs v = run-Inv v cs (new_wasapi_capture f s) (record {
    stoppable = λ h. refl;
    latency = λ h. cc h;
    sized = unfold start_ring in length-replicate (48000 * 2 * 2) s.zero;
  })

  -- A Start that fails after it has the device enumerator keeps that handle, and Stop then does nothing:
  -- it releases no handle. The next Start that gets as far puts its own handle in the place, and the first
  -- one is in no field.
  pub failed_start_leaks :
      (a b : Answers f) (w w' : WasapiCapture f s) (x : Error)
      → w.ring.running ≡ false
      → com_refused a.com_error ≡ false
      → a.create_hr ≡ 0
      → start f s a w ≡ (w', some x)
      → com_refused b.com_error ≡ false
      → b.create_hr ≡ 0
      → (w'.device_enumerator ≡ a.enumerator)
        × (stop f s w' ≡ some (w', []))
        × ((start f s b w').0.device_enumerator ≡ b.enumerator)
  unfolding start begin_stream stop start_ring
  failed_start_leaks a b w w' x idle joined made failed joined' made' =
      (ground arith, ground arith, ground arith)
