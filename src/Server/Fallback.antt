-- ===== src/Server/Fallback.antt =====
-- internal/server with internal/sync: the frame size that a client's jitter calls for.
use mathlib.Core.Path.{subst}
use soundswamp.Prelude.{
  ℕ, ◌≡◌, refl, sym, ◌⊎◌, inl, inr, true, false, ◌&&◌, Option, none, some, List, [], ◌∷◌, ◌++◌,
  arith, if◌then◌else◌,
}
use soundswamp.Prelude.Table.{GoString, lookup, insert, lookup-insert_self, string_eq}
use soundswamp.Prelude.Float.{Float}
use soundswamp.Session
use soundswamp.Session.{Client}
use soundswamp.Session.Registry.{through, write_heap, get_client}
use soundswamp.Latency
use soundswamp.Latency.{
  Equalizer, Event, broadcast, set_frame_size, JitterReport, recalculate, report_jitter,
  adjust_frames, small_change, ios_bg_jitter_threshold_ms, ios_bg_frame_ms,
}
use soundswamp.Stream
use soundswamp.Stream.{ClientStream}
use soundswamp.Server.{Server, perform, perform_all, handle_message, jitter_report}

module _ (f : Float) where
  recalculate-events :
      (e : Equalizer f)
      → ((recalculate f e).1 ≡ []) ⊎ ((d : f.Carrier) × ((recalculate f e).1 ≡ broadcast d ∷ []))
  unfolding recalculate
  recalculate-events e = ground arith

  -- What a report does to the frame size: 40 ms when it is above the threshold, 10 ms when it comes down
  -- to it, and else nothing.
  abbrev pub called_for : f.Carrier → Option (JitterReport f) → Option ℕ
  called_for p95_ms none =
      if f.lt (ios_bg_jitter_threshold_ms f) p95_ms then some (ios_bg_frame_ms f) else none
  called_for p95_ms (some r) =
      if f.lt (ios_bg_jitter_threshold_ms f) p95_ms
      then some (ios_bg_frame_ms f)
      else if f.lt (ios_bg_jitter_threshold_ms f) r.p95_ms
          && f.le p95_ms (ios_bg_jitter_threshold_ms f)
      then some 10
      else none

  adjust_frames-called_for :
      (id : GoString) (p95_ms : f.Carrier) (old : Option (JitterReport f)) (ms : ℕ)
      → called_for p95_ms old ≡ some ms
      → adjust_frames f id p95_ms old true ≡ Latency.done (set_frame_size id ms ∷ [])
  unfolding adjust_frames
  adjust_frames-called_for id p95_ms none ms h = ground arith
  adjust_frames-called_for id p95_ms (some r) ms h = ground arith

  recalculate-setter : (e : Equalizer f) → (recalculate f e).0.has_frame_setter ≡ e.has_frame_setter
  unfolding recalculate
  recalculate-setter e = ground arith

  -- The equalizer's callbacks for such a report.
  report_jitter-events :
      (id : GoString) (p95_ms : f.Carrier) (now ms : ℕ) (e : Equalizer f)
      → e.has_frame_setter ≡ true
      → small_change f p95_ms (lookup id e.reports) ≡ false
      → called_for p95_ms (lookup id e.reports) ≡ some ms
      → (e' : Equalizer f) × (before : List (Event f)) × (report_jitter f id p95_ms now e
          ≡ Latency.done (e', before ++ (set_frame_size id ms ∷ [])))
        × ((before ≡ []) ⊎ ((d : f.Carrier) × (before ≡ broadcast d ∷ [])))
  report_jitter-events id p95_ms now ms e set large called =
      let e1 : Equalizer f = record e {
        reports = insert id (record { p95_ms = p95_ms; updated_at = now }) e.reports;
      } in
      let adjusted = adjust_frames-called_for id p95_ms (lookup id e.reports) ms called in
      (
        (recalculate f e1).0,
        (recalculate f e1).1,
        unfold report_jitter in rw (report_jitter, large, set, adjusted),
        recalculate-events e1,
      )

  -- The frame size in the two places that keep it.
  abbrev pub HasFrameSize : GoString → ℕ → ClientStream → ℕ → Server f → Type 0
  HasFrameSize id ref cs ms t =
      ((t.session.heap ref).frame_size ≡ ms)
      × (lookup id t.stream.clients ≡ some (record cs { frame_size = ms }))

  perform-HasFrameSize :
      (id : GoString) (ref ms : ℕ) (s : Server f) (cs : ClientStream)
      → lookup id s.session.clients ≡ some ref
      → lookup id s.stream.clients ≡ some cs
      → HasFrameSize id ref cs ms (perform_all f (set_frame_size id ms ∷ []) s)
  perform-HasFrameSize id ref ms s cs known stream = (
    unfold perform_all perform get_client through write_heap Session.set_frame_size in
        ground (arith, known),
    (unfold perform_all perform get_client Stream.set_frame_size in
        ground (
          arith,
          known,
          stream,
          lookup-insert_self id (record cs { frame_size = ms }) s.stream.clients,
        )),
  )

  after_broadcast :
      (before after : List (Event f)) (s : Server f)
      → (before ≡ []) ⊎ ((d : f.Carrier) × (before ≡ broadcast d ∷ []))
      → perform_all f (before ++ after) s ≡ perform_all f after s
  unfolding perform_all perform
  after_broadcast [] after s h = refl
  after_broadcast (e ∷ before) after s (inl h) = cc h
  after_broadcast (broadcast d' ∷ []) after s (inr h) = refl
  after_broadcast (set_frame_size id ms ∷ []) after s (inr (d, h)) = cc h
  after_broadcast (e ∷ e' ∷ before) after s (inr (d, h)) = cc h

  -- A jitter report of a client, changed enough to act on, that calls for a frame size: above 30 ms it calls
  -- for 40 ms, and down at 30 ms or less after one above for 10 ms. It is handled without a panic, and
  -- afterwards both the client in the session and its stream have that frame size; of the stream nothing
  -- else changes.
  pub jitter-HasFrameSize :
      (id : GoString) (ref now ms : ℕ) (p95_ms : f.Carrier) (s : Server f) (cs : ClientStream)
      → s.latency.has_frame_setter ≡ true
      → (s.session.heap ref).id ≡ id
      → lookup id s.session.clients ≡ some ref
      → lookup id s.stream.clients ≡ some cs
      → small_change f p95_ms (lookup id s.latency.reports) ≡ false
      → called_for p95_ms (lookup id s.latency.reports) ≡ some ms
      → (t : Server f) × (handle_message f ref (jitter_report p95_ms now) s ≡ some t)
        × HasFrameSize id ref cs ms t
  jitter-HasFrameSize id ref now ms p95_ms s cs set own known stream large called =
      let (e', before, done, few) =
        report_jitter-events id p95_ms now ms s.latency set large called in
      let s1 : Server f = record s {
        session = through f ref (Session.set_jitter f p95_ms) s.session;
        latency = e';
      } in
      (
        perform_all f (before ++ (set_frame_size id ms ∷ [])) s1,
        unfold handle_message in rw (own, done, handle_message),
        subst (HasFrameSize id ref cs ms)
            (sym (after_broadcast before (set_frame_size id ms ∷ []) s1 few))
            (perform-HasFrameSize id ref ms s1 cs (unfold through in known) stream),
      )
