-- ===== src/Latency/Bounds.antt =====
-- internal/sync/latency.go: the range of the global delay, and how it moves.
use soundswamp.Prelude.{
  ℕ, ◌≡◌, ◌≢◌, refl, ◌⊎◌, inl, inr, Bool, true, false, Option, none, some, List, [], ◌∷◌, ◌++◌,
  arith, if◌then◌else◌, Bool-cases, length, All,
}
use soundswamp.Prelude.Table.{GoString, lookup, insert, string_eq}
use soundswamp.Prelude.Float.{Float, IsFloat}
use soundswamp.Latency.{
  Event, broadcast, set_frame_size, Outcome, done, panic, JitterReport, Equalizer, new_equalizer,
  set_loopback_compensation, max_p95, clamped, hysteresis, target, recalculate, adjust_frames,
  small_change, with_events, report_jitter, remove_client, laptop_playback_target, set_headroom,
}

module _ (f : Float) where
  open f use {Carrier, lit, lt, le, add, sub, abs}

  -- Not below 20 ms and not above 500 ms, as `<` and `>` tell: NaN is neither.
  abbrev pub InRange : Carrier → Type 0
  InRange d = (lt d (lit 200) ≡ false) × (lt (lit 5000) d ≡ false)

  abbrev pub EventInRange : Event f → Type 0
  EventInRange (broadcast d) = InRange d
  EventInRange (set_frame_size id ms) = (ms ≡ 10) ⊎ (ms ≡ 40)

  -- The calls that change a LatencyEqualizer.
  pub data Call : Type 0 where
    reports : GoString → Carrier → ℕ → Call
    leaves : GoString → Call
    sets_headroom : Carrier → Call
    sets_loopback : GoString → Carrier → Call

  unfoldable pub step : Call → Equalizer f → Outcome (Equalizer f × List (Event f))
  step (reports id p95_ms now) e = report_jitter f id p95_ms now e
  step (leaves id) e = done (remove_client f id e)
  step (sets_headroom ms) e = done (set_headroom f ms e)
  step (sets_loopback id ms) e = done (set_loopback_compensation f id ms e, [])

  unfoldable pub continue_with :
      Outcome (Equalizer f × List (Event f))
      → (Equalizer f → Outcome (Equalizer f × List (Event f)))
      → Outcome (Equalizer f × List (Event f))
  continue_with panic k = panic
  continue_with (done (e, events)) k = elim (k e) [
    | panic ↦ panic
    | done (e', more) ↦ done (e', events ++ more)
  ]

  -- A history of calls, and the events that it caused, in order.
  unfoldable pub run : List Call → Equalizer f → Outcome (Equalizer f × List (Event f))
  unfolding step continue_with
  run [] e = done (e, [])
  run (c ∷ cs) e = continue_with (step c e) (run cs)

  -- A call that does not panic, in whose state the delay is in range and the setter is still set, and
  -- whose events are in range.
  abbrev pub Safe : Outcome (Equalizer f × List (Event f)) → Type 0
  Safe panic = ⊥
  Safe (done (e, events)) =
      InRange e.global_delay × (e.has_frame_setter ≡ true) × All EventInRange events

  All-append :
      (xs ys : List (Event f))
      → All EventInRange xs
      → All EventInRange ys
      → All EventInRange (xs ++ ys)
  All-append [] ys hx hy = hy
  All-append (x ∷ xs) ys hx hy = (hx.0, All-append xs ys hx.1 hy)

  abbrev Adjusted : Outcome (List (Event f)) → Type 0
  Adjusted panic = ⊥
  Adjusted (done events) = All EventInRange events

  adjust_frames-Adjusted :
      (id : GoString) (p95_ms : Carrier) (old : Option (JitterReport f)) (set : Bool)
      → set ≡ true
      → Adjusted (adjust_frames f id p95_ms old set)
  unfolding adjust_frames
  adjust_frames-Adjusted id p none set h = ground arith
  adjust_frames-Adjusted id p (some r) set h = ground arith

  with_events-Safe :
      (r : Equalizer f × List (Event f)) (more : Outcome (List (Event f)))
      → Safe (done r)
      → Adjusted more
      → Safe (with_events f r more)
  unfolding with_events
  with_events-Safe (e, events) panic s h = h
  with_events-Safe (e, events) (done more) s h = (s.0, s.1, All-append events more s.2 h)

module _ (f : Float) (laws : IsFloat f) where
  open f use {Carrier, lit, lt, le, add, sub, abs}

  clamped-InRange : (d : Carrier) → InRange f (clamped f d)
  unfolding clamped
  clamped-InRange d = ground (
    arith,
    laws.lt-lit 5000 200 (omega arith) (omega arith),
    laws.lt-lit 200 200 (omega arith) (omega arith),
    laws.lt-lit 5000 5000 (omega arith) (omega arith),
    laws.lt-lit 200 5000 (omega arith) (omega arith),
  )

  lt_asymm : (a b : Carrier) → lt a b ≡ true → lt b a ≡ false
  lt_asymm a b h = elim (Bool-cases (lt b a)) [
    | inl k ↦ cc (laws.lt_trans a b a h k, laws.lt_irrefl a)
    | inr k ↦ k
  ]

  hysteresis-InRange : (d g : Carrier) → InRange f d → InRange f g → InRange f (hysteresis f d g)
  unfolding hysteresis
  hysteresis-InRange d g hd hg =
      ground (arith, laws.sub_swap g d (lit 20) (lit 200), laws.sub-lit g (lit 5000) 20)

  recalculate-Safe :
      (e : Equalizer f)
      → InRange f e.global_delay
      → e.has_frame_setter ≡ true
      → Safe f (done (recalculate f e))
  unfolding recalculate target
  recalculate-Safe e h s = ground (
    arith,
    hysteresis-InRange (clamped f (add (max_p95 f (lit 0) e.reports) e.headroom)) e.global_delay
        (clamped-InRange (add (max_p95 f (lit 0) e.reports) e.headroom)) h,
  )

  report_jitter-Safe :
      (id : GoString) (p95_ms : Carrier) (now : ℕ) (e : Equalizer f)
      → InRange f e.global_delay
      → e.has_frame_setter ≡ true
      → Safe f (report_jitter f id p95_ms now e)
  unfolding report_jitter
  report_jitter-Safe id p95_ms now e h s =
      let old = lookup id e.reports in
      let e' : Equalizer f = record e {
        reports = insert id (record { p95_ms = p95_ms; updated_at = now }) e.reports;
      } in
      elim (Bool-cases (small_change f p95_ms old)) [
        | inl small ↦ rw small (h, s, tt)
        | inr large ↦ rw large (
            with_events-Safe f (recalculate f e') (adjust_frames f id p95_ms old e.has_frame_setter)
              (recalculate-Safe e' h s)
              (adjust_frames-Adjusted f id p95_ms old e.has_frame_setter s))
      ]

  step-Safe :
      (c : Call f) (e : Equalizer f)
      → InRange f e.global_delay
      → e.has_frame_setter ≡ true
      → Safe f (step f c e)
  unfolding step remove_client set_headroom set_loopback_compensation
  step-Safe (reports id p95_ms now) e h s = report_jitter-Safe id p95_ms now e h s
  step-Safe (leaves id) e h s = recalculate-Safe _ h s
  step-Safe (sets_headroom ms) e h s = recalculate-Safe _ h s
  step-Safe (sets_loopback id ms) e h s = (h, s, tt)

  continue_with-Safe :
      (r : Outcome (Equalizer f × List (Event f)))
      (k : Equalizer f → Outcome (Equalizer f × List (Event f)))
      → Safe f r
      → ((e : Equalizer f) → InRange f e.global_delay → e.has_frame_setter ≡ true → Safe f (k e))
      → Safe f (continue_with f r k)
  unfolding continue_with
  continue_with-Safe panic k h next = h
  continue_with-Safe (done (e, events)) k h next = joined (k e) (next e h.0 h.1)
    where
      joined :
          (r : Outcome (Equalizer f × List (Event f)))
          → Safe f r
          → Safe f (elim r [ panic ↦ panic | done (e', more) ↦ done (e', events ++ more) ])
      joined panic h' = h'
      joined (done (e', more)) h' = (h'.0, h'.1, All-append f events more h.2 h'.2)

  run-Safe :
      (cs : List (Call f)) (e : Equalizer f)
      → InRange f e.global_delay
      → e.has_frame_setter ≡ true
      → Safe f (run f cs e)
  unfolding run
  run-Safe [] e h s = (h, s, tt)
  run-Safe (c ∷ cs) e h s =
      continue_with-Safe (step f c e) (run f cs) (step-Safe c e h s) (run-Safe cs)

  -- From a new equalizer whose frame-size callback is set, no history of jitter reports, departures,
  -- changes of headroom and loopback settings panics. After it the global delay does not compare as
  -- below 20 ms or as above 500 ms, and neither does any delay that was broadcast; every frame size
  -- that was set is 10 or 40. A NaN, which a headroom of NaN gives, compares as neither.
  pub run_range : (cs : List (Call f)) (b : Bool) → Safe f (run f cs (new_equalizer f b true))
  unfolding new_equalizer
  run_range cs b =
      run-Safe cs _
        (
          ground (arith, laws.lt-lit 200 200 (omega arith) (omega arith)),
          ground (arith, laws.lt-lit 5000 200 (omega arith) (omega arith)),
        )
        refl

  -- A recalculation over at least one report raises the delay at once: where the clamped sum of the
  -- largest P95 and the headroom is above the delay, by 0.5 ms or more, it becomes the delay, and it
  -- is broadcast if there is a broadcaster.
  pub recalculate_rises :
      (e : Equalizer f) (want : Carrier)
      → want ≡ clamped f (add (max_p95 f (lit 0) e.reports) e.headroom)
      → length e.reports ≢ 0
      → lt e.global_delay want ≡ true
      → lt (abs (sub want e.global_delay)) (lit 5) ≡ false
      → recalculate f e
        ≡ (record e { global_delay = want }, if e.has_broadcaster then broadcast want ∷ [] else [])
  unfolding recalculate target hysteresis
  recalculate_rises e want asked some_report up large =
      ground (arith, lt_asymm e.global_delay want up)

  -- The laptop's playback target is never below 0.
  pub laptop_playback_target_nonneg :
      (e : Equalizer f) → lt (laptop_playback_target f e) (lit 0) ≡ false
  unfolding laptop_playback_target
  laptop_playback_target_nonneg e = ground (arith, laws.lt_irrefl (lit 0))
