-- ===== src/Server/Effects.antt =====
-- internal/server: messages, handlers and the other steps that leave every connection in its phase.
use soundswamp.Prelude.{
  ℕ, ◌≡◌, refl, sym, ap, ◌∙◌, inl, inr, Bool, true, false, Option, none, some, List, [], ◌∷◌, ◌++◌,
  arith, ◌==◌, if◌then◌else◌, Option-cases, Bool-cases,
}
use soundswamp.Prelude.Table.{
  GoString, lookup, insert, string_eq, KeysOf, delete-KeysOf, insert-cases, insert_known-KeysOf,
}
use soundswamp.Prelude.Int.{ℤ}
use soundswamp.Prelude.Float.{Float}
use soundswamp.Session.Registry
use soundswamp.Session.Registry.{Session, through, write_heap, get_client, evict_stale_clients}
use soundswamp.Session.Invariant
use soundswamp.Session.Invariant.{Setter, apply, apply-id, through-Inv, remove_client-Inv}
use soundswamp.Session.Evict.{
  remove_client-lookup, remove_client-heap, remove_client-next, evict_exact, evict-next,
}
use soundswamp.Clock.{Result, ClockSync, ClientClock, process_periodic_reply}
use soundswamp.Latency
use soundswamp.Latency.{
  Equalizer, JitterReport, Event, recalculate, report_jitter, adjust_frames, small_change,
}
use soundswamp.Latency.Reports.{adjust_frames_panics}
use soundswamp.Stream
use soundswamp.Stream.{Manager}
use soundswamp.Stream.Keys.{set_channel-KeysOf, set_frame_size-KeysOf}
use soundswamp.Server.{
  Server, perform, perform_all, Message, heartbeat, jitter_report, clock_sync_reply,
  app_state_change, unknown, handle_message, attach, handle_kick, handle_channel_assign,
}
use soundswamp.Server.System.{with_session, with_stream}
use soundswamp.Server.Owners.{Effect}

abbrev pub Nobody : GoString → Type 0
Nobody id = ⊥

module _ (f : Float) where
  through-id :
      (ref r : ℕ) (g : Setter f) (s : Session f)
      → ((through f ref (apply f g) s).heap r).id ≡ (s.heap r).id
  unfolding through write_heap
  through-id ref r g s = elim (Bool-cases (r == ref)) [
    | inl same ↦
        rw same (apply-id f g (s.heap ref) ∙ ap (λ (k : ℕ). (s.heap k).id) (ground (arith, same)))
    | inr other ↦ rw other
  ]

  -- A write through a client pointer.
  through-Effect :
      (ref : ℕ) (g : Setter f) (s : Server f)
      → Invariant.Inv f s.session
      → Effect f Nobody s (with_session f (through f ref (apply f g) s.session) s)
  through-Effect ref g s v = record {
    session = through-Inv f ref g s.session v;
    frame_setter = refl;
    next = unfold through in refl;
    ids = λ r. through-id ref r g s.session;
    clients = λ id r h. unfold through in h;
    streams = λ id c h. (c, h);
    clocks = λ id c h. (c, h);
    reports = λ id r h. inr (r, h);
  }

  -- Two effects in a row.
  Effect-trans :
      (New : GoString → Type 0) (s t u : Server f)
      → Effect f New s t
      → Effect f Nobody t u
      → Effect f New s u
  Effect-trans New s t u x y = record {
    session = y.session;
    frame_setter = y.frame_setter ∙ x.frame_setter;
    next = y.next ∙ x.next;
    ids = λ r. y.ids r ∙ x.ids r;
    clients = λ id ref h. x.clients id ref (y.clients id ref h);
    streams = λ id c h. let (c', h') = y.streams id c h in x.streams id c' h';
    clocks = λ id c h. let (c', h') = y.clocks id c h in x.clocks id c' h';
    reports = λ id r h. elim (y.reports id r h) [
      | inl nobody ↦ absurd nobody
      | inr (r', h') ↦ x.reports id r' h'
    ];
  }

  -- A stream manager with no more clients than before.
  pub stream-Effect :
      (s : Server f) (m : Manager)
      → Invariant.Inv f s.session
      → KeysOf m.clients s.stream.clients
      → Effect f Nobody s (with_stream f m s)
  stream-Effect s m v sub = record {
    session = v;
    frame_setter = refl;
    next = refl;
    ids = λ r. refl;
    clients = λ id r h. h;
    streams = sub;
    clocks = λ id c h. (c, h);
    reports = λ id r h. inr (r, h);
  }

  idle : (s : Server f) → Invariant.Inv f s.session → Effect f Nobody s s
  idle s v = stream-Effect s s.stream v (λ id c h. (c, h))

  weaken :
      (ref : ℕ) (s t : Server f)
      → Effect f Nobody s t
      → Effect f (λ id. (s.session.heap ref).id ≡ id) s t
  weaken ref s t x = record {
    session = x.session;
    frame_setter = x.frame_setter;
    next = x.next;
    ids = x.ids;
    clients = x.clients;
    streams = x.streams;
    clocks = x.clocks;
    reports =
        λ id r h. elim (x.reports id r h) [ inl nobody ↦ absurd nobody | inr known ↦ inr known ];
  }

  perform-Effect :
      (e : Event f) (s : Server f) → Invariant.Inv f s.session → Effect f Nobody s (perform f e s)
  perform-Effect (Latency.broadcast d) s v =
      unfold perform in stream-Effect s s.stream v (λ id c h. (c, h))
  perform-Effect (Latency.set_frame_size id ms) s v =
      let m = Stream.set_frame_size id ms s.stream in
      let first = stream-Effect s m v (set_frame_size-KeysOf id ms s.stream) in
      elim (Option-cases (lookup id s.session.clients)) [
        | inl e ↦ unfold perform get_client in rw (e, perform) first
        | inr (ref, e) ↦
            unfold perform get_client in
            rw (e, perform)
              (Effect-trans Nobody s (with_stream f m s) _ first
                (unfold apply in through-Effect ref (Setter.frame_size ms) (with_stream f m s) v))
      ]

  perform_all-Effect :
      (New : GoString → Type 0) (es : List (Event f)) (s t : Server f)
      → Effect f New s t
      → Effect f New s (perform_all f es t)
  unfolding perform_all
  perform_all-Effect New [] s t x = x
  perform_all-Effect New (e ∷ es) s t x =
      perform_all-Effect New es s (perform f e t)
        (Effect-trans New s t (perform f e t) x (perform-Effect e t x.session))

  recalculate_keeps :
      (e : Equalizer f)
      → ((recalculate f e).0.reports ≡ e.reports)
        × ((recalculate f e).0.has_frame_setter ≡ e.has_frame_setter)
  unfolding recalculate
  recalculate_keeps e = ground arith

  -- ReportJitter with a frame-size callback returns; it writes one report.
  report_jitter_returns :
      (id : GoString) (p95_ms : f.Carrier) (now : ℕ) (e : Equalizer f)
      → e.has_frame_setter ≡ true
      → (e' : Equalizer f) × (events : List (Event f)) × (report_jitter f id p95_ms now e
          ≡ Latency.done (e', events))
        × (e'.reports ≡ insert id (record { p95_ms = p95_ms; updated_at = now }) e.reports)
        × (e'.has_frame_setter ≡ true)
  report_jitter_returns id p95_ms now e set =
      let old = lookup id e.reports in
      let r : JitterReport f = record { p95_ms = p95_ms; updated_at = now } in
      let e1 : Equalizer f = record e { reports = insert id r e.reports } in
      elim (Bool-cases (small_change f p95_ms old)) [
        | inl small ↦ (e1, [], unfold report_jitter in rw (report_jitter, small), refl, set)
        | inr large ↦ go e1 r large (adjust_frames f id p95_ms old e.has_frame_setter) refl refl
      ]
    where
      go :
          (e1 : Equalizer f) (r : JitterReport f)
          → small_change f p95_ms (lookup id e.reports) ≡ false
          → (out : Latency.Outcome (List (Event f)))
          → adjust_frames f id p95_ms (lookup id e.reports) e.has_frame_setter ≡ out
          → e1 ≡ record e {
            reports = insert id (record { p95_ms = p95_ms; updated_at = now }) e.reports;
          }
          → (e' : Equalizer f) × (events : List (Event f)) × (report_jitter f id p95_ms now e
              ≡ Latency.done (e', events))
            × (e'.reports ≡ insert id (record { p95_ms = p95_ms; updated_at = now }) e.reports)
            × (e'.has_frame_setter ≡ true)
      go e1 r large Latency.panic h same =
          cc (adjust_frames_panics f id p95_ms (lookup id e.reports) e.has_frame_setter h, set)
      go e1 r large (Latency.done more) h same =
          let keeps = recalculate_keeps e1 in
          (
            (recalculate f e1).0,
            (recalculate f e1).1 ++ more,
            unfold report_jitter in rw (report_jitter, large, h, same),
            keeps.0 ∙ ap (λ x. x.reports) same,
            keeps.1 ∙ ap (λ x. x.has_frame_setter) same ∙ set,
          )

  either-KeysOf :
      (b : Bool) (cs : ClockSync) (x y : ClockSync × Result (Option ℤ))
      → KeysOf x.0 cs
      → KeysOf y.0 cs
      → KeysOf (if b then x else y).0 cs
  either-KeysOf true cs x y h k = h
  either-KeysOf false cs x y h k = k

  process_periodic_reply-KeysOf :
      (id : GoString) (a b c d : ℤ) (now : ℕ) (sends : Bool) (cs : ClockSync)
      → KeysOf (process_periodic_reply id a b c d now sends cs).0 cs
  process_periodic_reply-KeysOf id a b c d now sends cs = go (lookup id cs) refl
    where
      go :
          (o : Option ClientClock)
          → lookup id cs ≡ o
          → KeysOf (process_periodic_reply id a b c d now sends cs).0 cs
      go none e = unfold process_periodic_reply in rw (e, process_periodic_reply) (λ k v h. (v, h))
      go (some k) e =
          unfold process_periodic_reply in
          rw (e, process_periodic_reply)
            (either-KeysOf _ cs _ _ (insert_known-KeysOf id _ k cs e)
              (insert_known-KeysOf id _ k cs e))

  -- A message of a client, whatever it is, is handled without a panic while the equalizer has its
  -- frame-size callback.
  pub handle_message-Effect :
      (ref : ℕ) (m : Message f) (s : Server f)
      → Invariant.Inv f s.session
      → s.latency.has_frame_setter ≡ true
      → (t : Server f) × (handle_message f ref m s ≡ some t)
        × Effect f (λ id. (s.session.heap ref).id ≡ id) s t
  unfolding handle_message
  handle_message-Effect ref (heartbeat now) s v set =
      (_, refl, weaken ref s _ (unfold apply in through-Effect ref (Setter.heartbeat now) s v))
  handle_message-Effect ref (app_state_change state) s v set =
      (_, refl, weaken ref s _ (unfold apply in through-Effect ref (Setter.app_state state) s v))
  handle_message-Effect ref unknown s v set = (s, refl, weaken ref s s (idle s v))
  handle_message-Effect ref (clock_sync_reply a b c d now sends) s v set = (
    _,
    refl,
    record {
      session = v;
      frame_setter = refl;
      next = refl;
      ids = λ r. refl;
      clients = λ id r h. h;
      streams = λ id c h. (c, h);
      clocks = process_periodic_reply-KeysOf (s.session.heap ref).id a b c d now sends s.clock;
      reports = λ id r h. inr (r, h);
    },
  )
  handle_message-Effect ref (jitter_report p95_ms now) s v set =
      let id = (s.session.heap ref).id in
      let (e', events, done, reports, set') = report_jitter_returns id p95_ms now s.latency set in
      let written = through-Effect ref (Setter.jitter p95_ms) s v in
      let s' : Server f =
        with_session f (through f ref (apply f (Setter.jitter p95_ms)) s.session) s in
      (
        perform_all f events (record s' { latency = e' }),
        unfold apply in rw (done, handle_message),
        perform_all-Effect (λ j. id ≡ j) events s (record s' { latency = e' })
            (record {
              session = written.session;
              frame_setter = set' ∙ sym set;
              next = written.next;
              ids = written.ids;
              clients = written.clients;
              streams = written.streams;
              clocks = written.clocks;
              reports = λ j r h.
                  elim (insert-cases id j _ r s.latency.reports (ap (lookup j) (sym reports) ∙ h)) [
                    | inl same ↦ inl (sym same)
                    | inr known ↦ inr (r, known)
                  ];
            }),
      )

  pub attach-Effect :
      (ref conn : ℕ) (s : Server f)
      → Invariant.Inv f s.session
      → Effect f Nobody s (attach f ref conn s)
  unfolding attach
  attach-Effect ref conn s v = unfold apply in through-Effect ref (Setter.write_func conn) s v

  remove_client-kept :
      (id j : GoString) (ref : ℕ) (s : Session f)
      → lookup j (Registry.remove_client f id s).0.clients ≡ some ref
      → lookup j s.clients ≡ some ref
  remove_client-kept id j ref s h = ground (arith, remove_client-lookup f id j s, h)

  pub handle_kick-Effect :
      (id : GoString) (s : Server f)
      → Invariant.Inv f s.session
      → Effect f Nobody s (handle_kick f id s)
  unfolding handle_kick
  handle_kick-Effect id s v = record {
    session = remove_client-Inv f id s.session v;
    frame_setter = refl;
    next = remove_client-next f id s.session;
    ids = λ r. ap (λ h. (h r).id) (remove_client-heap f id s.session);
    clients = λ j ref h. remove_client-kept id j ref s.session h;
    streams = unfold Stream.remove_client in delete-KeysOf id s.stream.clients;
    clocks = λ j c h. (c, h);
    reports = λ j r h. inr (r, h);
  }

  pub handle_channel_assign-Effect :
      (id : GoString) (channel : ℕ) (s : Server f)
      → Invariant.Inv f s.session
      → Effect f Nobody s (handle_channel_assign f id channel s).0
  handle_channel_assign-Effect id channel s v = elim (Option-cases (lookup id s.session.clients)) [
    | inl e ↦ unfold handle_channel_assign get_client in rw (e, handle_channel_assign) (idle s v)
    | inr (ref, e) ↦
        let m = Stream.set_channel id channel s.stream in
        let first = stream-Effect s m v (set_channel-KeysOf id channel s.stream) in
        unfold handle_channel_assign get_client in
        rw (e, handle_channel_assign)
          (Effect-trans Nobody s (with_stream f m s) _ first
            (unfold apply in through-Effect ref (Setter.channel channel) (with_stream f m s) v))
  ]

  evict-kept :
      (now : ℕ) (j : GoString) (ref : ℕ) (s : Session f)
      → Invariant.Inv f s
      → lookup j (evict_stale_clients f now s).0.clients ≡ some ref
      → lookup j s.clients ≡ some ref
  evict-kept now j ref s v h = elim (evict_exact f now j s v).2 [
    | inl (_, gone, _) ↦ cc
    | inr (inl (_, _, _, gone, _)) ↦ cc
    | inr (inr (r, known, _, kept, _)) ↦ ground (arith, known, kept, h)
  ]

  pub evict-Effect :
      (now : ℕ) (s : Server f)
      → Invariant.Inv f s.session
      → Effect f Nobody s (with_session f (evict_stale_clients f now s.session).0 s)
  evict-Effect now s v = record {
    session = (evict_exact f now [] s.session v).0;
    frame_setter = refl;
    next = evict-next f now s.session;
    ids = λ r. ap (λ h. (h r).id) (evict_exact f now [] s.session v).1;
    clients = λ j ref h. evict-kept now j ref s.session v h;
    streams = λ j c h. (c, h);
    clocks = λ j c h. (c, h);
    reports = λ j r h. inr (r, h);
  }
