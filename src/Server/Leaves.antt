-- ===== src/Server/Leaves.antt =====
-- internal/server/tcp.go: the ways in which a connection ends, and the owners of what is left.
use mathlib.Core.Path.{subst}
use native.Mathlib.Decide.{ℕ_discrete}
use soundswamp.Prelude.{
  ℕ, ◌<◌, ◌≡◌, ◌≢◌, refl, sym, ap, ◌∙◌, inl, inr, Bool, false, some, List, [], ◌∷◌, arith,
}
use soundswamp.Prelude.Table.{GoString, lookup, string_eq, delete-Other}
use soundswamp.Prelude.Float.{Float}
use soundswamp.Session.Registry
use soundswamp.Session.Registry.{Session, add_client, write_heap}
use soundswamp.Session.Invariant.{remove_client-Inv, lookup-Placed}
use soundswamp.Session.Evict.{remove_client-heap, remove_client-next}
use soundswamp.Clock
use soundswamp.Clock.{
  best_round, offset, rtt, ClockSync, ClientClock, Round, ProbeResult, probe_rounds,
  initial_handshake, settle,
}
use soundswamp.Stream
use soundswamp.Stream.{Manager, ClientStream}
use soundswamp.Server.{Server, synchronise, disconnect}
use soundswamp.Server.Lifecycle.{failed_handshake, latency_reports, latency_setter}
use soundswamp.Server.System.{System, Phase, waiting, reading, closed, stranded, set_phase}
use soundswamp.Server.Owners.{IsReading, IsOpen, IsClocked, Bearer, Inv}
use soundswamp.Clock.Handshake.{handshake_fails}
use soundswamp.Server.Turns.{handshake-clocks}
use soundswamp.Server.Phases.{set_phase_self, set_phase_ne, removed-Other, removed-Bearer}

module _ (f : Float) where
  -- A connection that ends: its client leaves the session, and its phase is now `p`.
  module _ (s : System f) (ref : ℕ) (p : Phase) (v : Inv f s) where
    gone : Session f
    gone = (Registry.remove_client f (s.server.session.heap ref).id s.server.session).0

    ended-session :
        (j : GoString) (r : ℕ) → lookup j gone.clients ≡ some r → IsOpen (set_phase ref p s.phase r)
    unfolding gone
    ended-session j r h =
        let (ne, known) = removed-Other f (s.server.session.heap ref).id j r s.server.session h in
        let (_, bears) =
          lookup-Placed f s.server.session.heap s.server.session.next_ref r j
            s.server.session.clients v.session.placed known in
        let other : r ≢ ref =
          λ same. ne (sym bears ∙ ap (λ k. (s.server.session.heap k).id) same) in
        subst IsOpen (sym (set_phase_ne ref r p s.phase other)) (v.in_session j r known)

    ended-born :
        (r : ℕ) → set_phase ref p s.phase r ≢ closed → s.phase ref ≢ closed → r < gone.next_ref
    unfolding gone
    ended-born r h open_before =
        let next = remove_client-next f (s.server.session.heap ref).id s.server.session in
        elim (ℕ_discrete r ref) [
          | yes same ↦ let b = v.born ref open_before in omega arith
          | no other ↦
              let b = v.born r (λ g. h (set_phase_ne ref r p s.phase other ∙ g)) in omega arith
        ]

    ended-Bearer :
        (P : Phase → Type 0) (j : GoString)
        → ((r : ℕ) → (s.server.session.heap r).id ≡ j → P (s.phase r) → r ≢ ref)
        → Bearer f s.server.session s.phase P j
        → Bearer f gone (set_phase ref p s.phase) P j
    unfolding gone
    ended-Bearer P j apart =
        removed-Bearer f (s.server.session.heap ref).id s.server.session s.phase _ P P j
          (λ r below bears q. subst P (sym (set_phase_ne ref r p s.phase (apart r bears q))) q)

  pub leave-Inv :
      (s : System f) (ref : ℕ)
      → s.phase ref ≡ reading
      → Inv f s
      → Inv f (record { server = disconnect f ref s.server; phase = set_phase ref closed s.phase })
  unfolding disconnect gone Stream.remove_client Clock.remove_client
  leave-Inv s ref w v = record {
    session = remove_client-Inv f id s.server.session v.session;
    frame_setter = latency_setter f id s.server.latency ∙ v.frame_setter;
    born = λ r h. ended-born s ref closed v r h (λ g. cc (w, g));
    in_session = ended-session s ref closed v;
    in_stream = λ j c h.
        let (ne, known) = delete-Other id j s.server.stream.clients c h in
        ended-Bearer s ref closed v IsReading j (λ r bears q. apart j r ne bears)
          (v.in_stream j c known);
    in_clock = λ j c h.
        let (ne, known) = delete-Other id j s.server.clock c h in
        ended-Bearer s ref closed v IsClocked j (λ r bears q. apart j r ne bears)
          (v.in_clock j c known);
    in_latency = λ j c h.
        let (ne, known) =
          delete-Other id j s.server.latency.reports c
            (ap (lookup j) (sym (latency_reports f id s.server.latency)) ∙ h) in
        ended-Bearer s ref closed v IsReading j (λ r bears q. apart j r ne bears)
          (v.in_latency j c known);
  }
    where
      id : GoString
      id = (s.server.session.heap ref).id

      apart : (j : GoString) (r : ℕ) → j ≢ id → (s.server.session.heap r).id ≡ j → r ≢ ref
      apart j r ne bears same = ne (sym bears ∙ ap (λ k. (s.server.session.heap k).id) same)

  -- A handshake that fails leaves the session without its client.
  module _ (s : System f) (ref : ℕ) (p : Phase) (v : Inv f s) where
    failed-Inv :
        (cs : ClockSync)
        → s.phase ref ≡ waiting
        → ((j : GoString) (c : ClientClock)
            → lookup j cs ≡ some c
            → Bearer f (gone s ref p v) (set_phase ref p s.phase) IsClocked j)
        → let old : Server f = s.server in
          Inv f (record {
            server = record old { session = gone s ref p v; clock = cs };
            phase = set_phase ref p s.phase;
          })
    failed-Inv cs w clocked = record {
      session =
          unfold gone in
          remove_client-Inv f (s.server.session.heap ref).id s.server.session v.session;
      frame_setter = v.frame_setter;
      born = λ r h. ended-born s ref p v r h (λ g. cc (w, g));
      in_session = ended-session s ref p v;
      in_stream = λ j c h.
          ended-Bearer s ref p v IsReading j (λ r bears q. apart r (inl q)) (v.in_stream j c h);
      in_clock = clocked;
      in_latency = λ j c h.
          ended-Bearer s ref p v IsReading j (λ r bears q. apart r (inl q)) (v.in_latency j c h);
    }
      where
        apart : (r : ℕ) → IsClocked (s.phase r) → r ≢ ref
        apart r (inl q) same = cc (q, w, ap s.phase same)
        apart r (inr q) same = cc (q, w, ap s.phase same)

    failed_clock :
        (j : GoString) (c : ClientClock)
        → s.phase ref ≡ waiting
        → lookup j s.server.clock ≡ some c
        → Bearer f (gone s ref p v) (set_phase ref p s.phase) IsClocked j
    failed_clock j c w h =
        ended-Bearer s ref p v IsClocked j
          (λ r bears q same. elim q [
            | inl q ↦ cc (q, w, ap s.phase same)
            | inr q ↦ cc (q, w, ap s.phase same)
          ])
          (v.in_clock j c h)

    failed-state :
        (rounds : List Round) (now : ℕ) (sent : Bool) (addr : GoString) (x : Clock.Error)
        → (initial_handshake (s.server.session.heap ref).id rounds now sent s.server.clock).1
          ≡ Clock.err x
        → let old : Server f = s.server in
          (synchronise f ref rounds now sent addr old).0 ≡ record old {
            session = gone s ref p v;
            clock =
                (initial_handshake (s.server.session.heap ref).id rounds now sent s.server.clock).0;
          }
    unfolding gone
    failed-state rounds now sent addr x h =
        ap (λ r. r.0)
          (failed_handshake f ref (s.server.session.heap ref).id rounds now sent addr s.server x
            refl h)

  pub unanswered-Inv :
      (s : System f) (ref : ℕ) (rounds : List Round) (now : ℕ) (sent : Bool) (addr : GoString)
      (x : Clock.Error)
      → s.phase ref ≡ waiting
      → probe_rounds rounds ≡ Clock.err x
      → Inv f s
      → Inv f (record {
        server = (synchronise f ref rounds now sent addr s.server).0;
        phase = set_phase ref closed s.phase;
      })
  unanswered-Inv s ref rounds now sent addr x w e v =
      let id = (s.server.session.heap ref).id in
      let failed = handshake_fails id rounds x now sent s.server.clock e in
      subst (λ (k : Server f). Inv f (record { server = k; phase = set_phase ref closed s.phase }))
        (sym (failed-state s ref closed v rounds now sent addr x (ap (λ r. r.1) failed)))
        (failed-Inv s ref closed v (initial_handshake id rounds now sent s.server.clock).0 w
          (λ j c h. failed_clock s ref closed v j c w (ap (λ r. lookup j r.0) (sym failed) ∙ h)))

  unsent-error :
      (id : GoString) (rounds : List Round) (now : ℕ) (rs : List ProbeResult) (cs : ClockSync)
      → probe_rounds rounds ≡ Clock.ok rs
      → (x : Clock.Error) × ((initial_handshake id rounds now false cs).1 ≡ Clock.err x)
  unfolding initial_handshake settle
  unsent-error id rounds now [] cs e = (Clock.no_rounds, rw (e, initial_handshake))
  unsent-error id rounds now (first ∷ rest) cs e = (Clock.send_offset, rw (e, initial_handshake))

  pub unsent-Inv :
      (s : System f) (ref : ℕ) (rounds : List Round) (now : ℕ) (addr : GoString)
      (rs : List ProbeResult)
      → s.phase ref ≡ waiting
      → probe_rounds rounds ≡ Clock.ok rs
      → Inv f s
      → Inv f (record {
        server = (synchronise f ref rounds now false addr s.server).0;
        phase = set_phase ref stranded s.phase;
      })
  unsent-Inv s ref rounds now addr rs w e v =
      let id = (s.server.session.heap ref).id in
      let (x, failed) = unsent-error id rounds now rs s.server.clock e in
      let next = remove_client-next f id s.server.session in
      let below = v.born ref (λ h. cc (w, h)) in
      subst
        (λ (k : Server f). Inv f (record { server = k; phase = set_phase ref stranded s.phase }))
        (sym (failed-state s ref stranded v rounds now false addr x failed))
        (failed-Inv s ref stranded v (initial_handshake id rounds now false s.server.clock).0 w
          (λ j c h. elim (handshake-clocks f id rounds now false s.server.clock j c h) [
            | inl same ↦ (
              ref,
              unfold gone in omega arith,
              unfold gone in
                  ap (λ k. (k ref).id) (remove_client-heap f id s.server.session) ∙ sym same,
              inr (set_phase_self ref stranded s.phase),
            )
            | inr known ↦ failed_clock s ref stranded v j c w known
          ]))
