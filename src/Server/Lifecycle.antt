-- ===== src/Server/Lifecycle.antt =====
-- internal/server: what a connection leaves behind, and what the handlers keep in step.
use mathlib.Core.Path.{subst}
use soundswamp.Prelude.{
  ℕ, ◌≡◌, ◌≢◌, refl, ap, ◌∙◌, ◌⊎◌, inl, inr, Bool, true, false, none, some, List, ◌∷◌, arith,
  Option-cases,
}
use soundswamp.Prelude.Table.{
  GoString, lookup, delete, string_eq, lookup-insert_self, lookup-delete_self, lookup-delete_ne,
}
use soundswamp.Prelude.Float.{Float}
use soundswamp.Session
use soundswamp.Session.Registry
use soundswamp.Session.Registry.{Session, through, get_client, write_heap}
use soundswamp.Session.Invariant.{remove_client_lem}
use soundswamp.Clock
use soundswamp.Clock.{
  ClockSync, ClientClock, ProbeResult, Round, probe_rounds, initial_handshake, send_offset,
}
use soundswamp.Clock.Handshake.{handshake_stores}
use soundswamp.Latency
use soundswamp.Latency.{Equalizer, recalculate}
use soundswamp.Stream
use soundswamp.Stream.{Manager, ClientStream}
use soundswamp.Server.{Server, dropped, synchronise, disconnect, handle_channel_assign}

module _ (f : Float) where
  recalculate-reports : (e : Equalizer f) → (recalculate f e).0.reports ≡ e.reports
  unfolding recalculate
  recalculate-reports e = ground arith

  pub latency_reports :
      (id : GoString) (e : Equalizer f)
      → (Latency.remove_client f id e).0.reports ≡ delete id e.reports
  unfolding Latency.remove_client
  latency_reports id e = recalculate-reports (record e { reports = delete id e.reports })

  pub latency_setter :
      (id : GoString) (e : Equalizer f)
      → (Latency.remove_client f id e).0.has_frame_setter ≡ e.has_frame_setter
  unfolding Latency.remove_client recalculate
  latency_setter id e = ground arith

  -- When a connection ends, its client is in none of the session, the stream manager, the clocks and the
  -- jitter reports, whatever it was in before; and the entries of every other client are as they were.
  pub disconnect_forgets :
      (ref : ℕ) (id other : GoString) (s : Server f)
      → (s.session.heap ref).id ≡ id
      → id ≢ other
      → let s' = disconnect f ref s in
        (lookup id s'.session.clients ≡ none)
        × (lookup id s'.stream.clients ≡ none)
        × (lookup id s'.clock ≡ none)
        × (lookup id s'.latency.reports ≡ none)
        × (lookup other s'.session.clients ≡ lookup other s.session.clients)
        × (lookup other s'.stream.clients ≡ lookup other s.stream.clients)
        × (lookup other s'.clock ≡ lookup other s.clock)
        × (lookup other s'.latency.reports ≡ lookup other s.latency.reports)
  unfolding disconnect Stream.remove_client Clock.remove_client
  disconnect_forgets ref id other s e ne =
      let session = remove_client_lem f id other s.session ne in
      let reports = latency_reports id s.latency in
      rw e (
        session.0,
        lookup-delete_self id s.stream.clients,
        lookup-delete_self id s.clock,
        ap (lookup id) reports ∙ lookup-delete_self id s.latency.reports,
        session.1,
        lookup-delete_ne id other s.stream.clients ne,
        lookup-delete_ne id other s.clock ne,
        ap (lookup other) reports ∙ lookup-delete_ne id other s.latency.reports ne,
      )

  pub failed_handshake :
      (ref : ℕ) (id : GoString) (rounds : List Round) (now : ℕ) (sends : Bool) (udp_addr : GoString)
      (s : Server f) (x : Clock.Error)
      → (s.session.heap ref).id ≡ id
      → (initial_handshake id rounds now sends s.clock).1 ≡ Clock.err x
      → synchronise f ref rounds now sends udp_addr s ≡ (
        record s {
          session = (Registry.remove_client f id s.session).0;
          clock = (initial_handshake id rounds now sends s.clock).0;
        },
        dropped,
      )
  unfolding synchronise
  failed_handshake ref id rounds now sends udp_addr s x e failed =
      subst
        (λ (k : GoString).
          (initial_handshake k rounds now sends s.clock).1 ≡ Clock.err x
          → synchronise f ref rounds now sends udp_addr s ≡ (
            record s {
              session = (Registry.remove_client f k s.session).0;
              clock = (initial_handshake k rounds now sends s.clock).0;
            },
            dropped,
          ))
        e (λ h. rw (h, synchronise)) failed

  -- When every probe of a connection is answered but the offset cannot be sent, the connection is dropped
  -- and its client leaves the session, while its clock stays stored.
  pub failed_offset_leaks :
      (ref : ℕ) (id other : GoString) (rounds : List Round) (first : ProbeResult)
      (rest : List ProbeResult) (now : ℕ) (udp_addr : GoString) (s : Server f)
      → (s.session.heap ref).id ≡ id
      → id ≢ other
      → probe_rounds rounds ≡ Clock.ok (first ∷ rest)
      → ((synchronise f ref rounds now false udp_addr s).1 ≡ dropped)
        × (lookup id (synchronise f ref rounds now false udp_addr s).0.session.clients ≡ none)
        × ((synchronise f ref rounds now false udp_addr s).0.stream ≡ s.stream)
        × (lookup id (synchronise f ref rounds now false udp_addr s).0.clock ≢ none)
  failed_offset_leaks ref id other rounds first rest now udp_addr s e ne answered =
      let (c, _, stored, failed, _) =
        handshake_stores id other rounds first rest now false s.clock ne answered in
      let gone = (remove_client_lem f id other s.session ne).0 in
      let done = failed_handshake ref id rounds now false udp_addr s send_offset e failed in
      (
        ap (λ r. r.1) done,
        ap (λ r. lookup id r.0.session.clients) done ∙ gone,
        ap (λ r. r.0.stream) done,
        λ h. cc (ap (λ r. lookup id r.0.clock) done, stored, h),
      )

  -- A channel assignment reaches both places that keep it: where the client is in the session and its
  -- stream in the stream manager, both have the new channel, and nothing else of the stream changes.
  -- For an unknown client nothing changes.
  pub handle_channel_assign_lem :
      (id : GoString) (channel : ℕ) (s : Server f)
      → ((lookup id s.session.clients ≡ none) × (handle_channel_assign f id channel s ≡ (s, false)))
        ⊎ ((ref : ℕ) × (s' : Server f) × (lookup id s.session.clients ≡ some ref)
            × (handle_channel_assign f id channel s ≡ (s', true))
            × (s'.session.clients ≡ s.session.clients)
            × ((s'.session.heap ref).channel_assign ≡ channel)
            × (((lookup id s.stream.clients ≡ none) × (s'.stream ≡ s.stream))
                ⊎ ((cs : ClientStream) × (lookup id s.stream.clients ≡ some cs)
                    × (lookup id s'.stream.clients
                        ≡ some (record cs { channel_assign = channel })))))
  unfolding handle_channel_assign get_client
  handle_channel_assign_lem id channel s = elim (Option-cases (lookup id s.session.clients)) [
    | inl e ↦ inl (e, rw (e, handle_channel_assign))
    | inr (ref, e) ↦ inr (
      ref,
      record s {
        session = through f ref (Session.set_channel f channel) s.session;
        stream = Stream.set_channel id channel s.stream;
      },
      e,
      rw (e, handle_channel_assign),
      unfold through in refl,
      unfold through write_heap Session.set_channel in ground arith,
      elim (Option-cases (lookup id s.stream.clients)) [
        | inl none_there ↦
            inl (none_there, unfold Stream.set_channel in rw (none_there, Stream.set_channel))
        | inr (cs, there) ↦ inr (
          cs,
          there,
          unfold Stream.set_channel in
              rw (there, Stream.set_channel)
                (lookup-insert_self id (record cs { channel_assign = channel }) s.stream.clients),
        )
      ],
    )
  ]
