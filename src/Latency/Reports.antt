-- ===== src/Latency/Reports.antt =====
-- internal/sync/latency.go: what one client's reports do, and what they leave undone.
use soundswamp.Prelude.{
  ℕ, ◌≡◌, refl, ◌≢◌, inl, inr, Bool, true, false, Option, none, some, List, [], ◌∷◌, ◌++◌, arith,
  Bool-cases,
}
use soundswamp.Prelude.Table.{
  GoString, lookup, insert, lookup-insert_self, lookup-insert_ne, string_eq,
}
use soundswamp.Prelude.Float.{Float}
use soundswamp.Latency.{
  Event, Outcome, done, panic, JitterReport, Equalizer, recalculate, adjust_frames, small_change,
  with_events, report_jitter, get_client_report,
}
use soundswamp.Latency.Bounds.{Call, reports, run, step, continue_with}

module _ (f : Float) where
  open f use {Carrier, lit, lt, le, add, sub, abs}

  recalculate-reports : (e : Equalizer f) → (recalculate f e).0.reports ≡ e.reports
  unfolding recalculate
  recalculate-reports e = ground arith

  abbrev pub Recorded :
      Equalizer f → GoString → GoString → Carrier → Outcome (Equalizer f × List (Event f)) → Type 0
  Recorded e id other p95_ms panic = (e.has_frame_setter ≡ false)
  Recorded e id other p95_ms (done (e', events)) =
      (get_client_report f id e' ≡ (p95_ms, true))
      × (get_client_report f other e' ≡ get_client_report f other e)

  with_events-Recorded :
      (e : Equalizer f) (id other : GoString) (p95_ms : Carrier) (r : Equalizer f × List (Event f))
      (out : Outcome (List (Event f)))
      → (out ≡ panic → e.has_frame_setter ≡ false)
      → Recorded e id other p95_ms (done r)
      → Recorded e id other p95_ms (with_events f r out)
  unfolding with_events
  with_events-Recorded e id other p95_ms (e', events) panic h k = h refl
  with_events-Recorded e id other p95_ms (e', events) (done later) h k = k

  pub adjust_frames_panics :
      (id : GoString) (p95_ms : Carrier) (old : Option (JitterReport f)) (set : Bool)
      → adjust_frames f id p95_ms old set ≡ panic
      → set ≡ false
  unfolding adjust_frames
  adjust_frames_panics id p none set h = ground arith
  adjust_frames_panics id p (some r) set h = ground arith

  -- The entries of the table after one write, as the getter shows them.
  written :
      (e e' : Equalizer f) (id other : GoString) (r : JitterReport f)
      → id ≢ other
      → e'.reports ≡ insert id r e.reports
      → (get_client_report f id e' ≡ (r.p95_ms, true))
        × (get_client_report f other e' ≡ get_client_report f other e)
  unfolding get_client_report
  written e e' id other r ne h = (
    ground (arith, lookup-insert_self id r e.reports),
    ground (arith, lookup-insert_ne id other r e.reports ne),
  )

  -- A report is recorded for its client, and that of any other client stays; the call panics only if
  -- no frame-size callback is set.
  pub report_jitter-Recorded :
      (id other : GoString) (p95_ms : Carrier) (now : ℕ) (e : Equalizer f)
      → id ≢ other
      → Recorded e id other p95_ms (report_jitter f id p95_ms now e)
  unfolding report_jitter
  report_jitter-Recorded id other p95_ms now e ne =
      let old = lookup id e.reports in
      let r : JitterReport f = record { p95_ms = p95_ms; updated_at = now } in
      let e' : Equalizer f = record e { reports = insert id r e.reports } in
      elim (Bool-cases (small_change f p95_ms old)) [
        | inl small ↦ rw small (written e e' id other r ne refl)
        | inr large ↦ rw large (
            with_events-Recorded e id other p95_ms (recalculate f e')
              (adjust_frames f id p95_ms old e.has_frame_setter)
              (adjust_frames_panics id p95_ms old e.has_frame_setter)
              (written e (recalculate f e').0 id other r ne (recalculate-reports e')))
      ]

  -- With no frame-size callback, a client whose P95 comes back from above 30 ms to 30 ms or under, by
  -- 10 ms or more, makes ReportJitter call the nil callback.
  pub report_jitter_nil_setter :
      (id : GoString) (p95_ms : Carrier) (now : ℕ) (e : Equalizer f) (old : JitterReport f)
      → e.has_frame_setter ≡ false
      → lookup id e.reports ≡ some old
      → lt (lit 300) old.p95_ms ≡ true
      → le p95_ms (lit 300) ≡ true
      → lt (abs (sub p95_ms old.p95_ms)) (lit 100) ≡ false
      → report_jitter f id p95_ms now e ≡ panic
  unfolding report_jitter adjust_frames small_change with_events
  report_jitter_nil_setter id p95_ms now e old unset known high low large = ground arith

  -- Each report is less than 10 ms from the one before; the first, from `old`.
  abbrev pub Creeps : Carrier → List (Carrier × ℕ) → Type 0
  Creeps old [] = Unit {0}
  Creeps old ((p, now) ∷ rs) = (lt (abs (sub p old)) (lit 100) ≡ true) × Creeps p rs

  abbrev pub reports_of : GoString → List (Carrier × ℕ) → List (Call f)
  reports_of id [] = []
  reports_of id ((p, now) ∷ rs) = reports id p now ∷ reports_of id rs

  -- No event, and the delay as before.
  abbrev pub Ignored : Carrier → Outcome (Equalizer f × List (Event f)) → Type 0
  Ignored d panic = ⊥
  Ignored d (done (e, events)) = (e.global_delay ≡ d) × (events ≡ [])

  continue_with-Ignored :
      (d : Carrier) (e : Equalizer f) (k : Equalizer f → Outcome (Equalizer f × List (Event f)))
      → Ignored d (k e)
      → Ignored d (continue_with f (done (e, [])) k)
  unfolding continue_with
  continue_with-Ignored d e k h = joined (k e) h
    where
      joined :
          (r : Outcome (Equalizer f × List (Event f)))
          → Ignored d r
          → Ignored d (elim r [ panic ↦ panic | done (e', later) ↦ done (e', [] ++ later) ])
      joined panic h' = h'
      joined (done (e', later)) h' = h'

  -- Once a client has reported, its further reports that are each less than 10 ms from the one before
  -- change nothing: however far they rise or fall in the end, the global delay stays, and nothing is
  -- broadcast and no frame size set.
  pub creep-Ignored :
      (id : GoString) (e : Equalizer f) (old : JitterReport f) (rs : List (Carrier × ℕ))
      → lookup id e.reports ≡ some old
      → Creeps old.p95_ms rs
      → Ignored e.global_delay (run f (reports_of id rs) e)
  unfolding run
  creep-Ignored id e old [] known c = (refl, refl)
  creep-Ignored id e old ((p, now) ∷ rs) known c =
      let r : JitterReport f = record { p95_ms = p; updated_at = now } in
      let e' : Equalizer f = record e { reports = insert id r e.reports } in
      let first : step f (reports id p now) e ≡ done (e', []) =
        unfold step report_jitter small_change in ground arith in
      rw first (
        continue_with-Ignored e.global_delay e' (run f (reports_of id rs))
          (creep-Ignored id e' r rs (lookup-insert_self id r e.reports) c.1))
