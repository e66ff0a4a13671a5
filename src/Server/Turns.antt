-- ===== src/Server/Turns.antt =====
-- internal/server/tcp.go: handleConnection's handshake that succeeds, and the owners of what it adds.
use mathlib.Core.Path.{subst}
use native.Mathlib.Decide.{ℕ_discrete}
use soundswamp.Prelude.{
  ℕ, ◌<◌, ◌≡◌, refl, sym, ap, ◌∙◌, ◌⊎◌, inl, inr, Bool, true, some, List, [], ◌∷◌, arith,
}
use soundswamp.Prelude.Table.{GoString, lookup, insert, string_eq, insert-cases}
use soundswamp.Prelude.Int.{ℤ}
use soundswamp.Prelude.Float.{Float}
use soundswamp.Clock
use soundswamp.Clock.{
  best_round, offset, rtt, ClockSync, ClientClock, Round, ProbeResult, probe_rounds,
  initial_handshake, settle,
}
use soundswamp.Stream
use soundswamp.Stream.{Manager, ClientStream}
use soundswamp.Server.{Server, serving, synchronise}
use soundswamp.Server.Lifecycle.{failed_handshake}
use soundswamp.Server.System.{System, Phase, waiting, reading, set_phase}
use soundswamp.Server.Owners.{IsReading, IsOpen, IsClocked, Bearer, Inv, Bearer-moves}
use soundswamp.Server.Phases.{set_phase_self, set_phase_ne}

module _ (f : Float) where
  -- The handshake writes no clock but its client's.
  pub handshake-clocks :
      (id : GoString) (rounds : List Round) (now : ℕ) (sent : Bool) (cs : ClockSync) (j : GoString)
      (c : ClientClock)
      → lookup j (initial_handshake id rounds now sent cs).0 ≡ some c
      → (j ≡ id) ⊎ (lookup j cs ≡ some c)
  handshake-clocks id rounds now sent cs j c h = go (probe_rounds rounds) refl
    where
      go :
          (r : Clock.Result (List ProbeResult))
          → probe_rounds rounds ≡ r
          → (j ≡ id) ⊎ (lookup j cs ≡ some c)
      go (Clock.err x) e =
          let same : (initial_handshake id rounds now sent cs).0 ≡ cs =
            unfold initial_handshake in rw (e, initial_handshake) in
          inr (ap (lookup j) (sym same) ∙ h)
      go (Clock.ok []) e =
          let same : (initial_handshake id rounds now sent cs).0 ≡ cs =
            unfold initial_handshake settle in rw (e, initial_handshake) in
          inr (ap (lookup j) (sym same) ∙ h)
      go (Clock.ok (first ∷ rest)) e =
          let best = best_round first rest in
          let clock : ClientClock = record {
            id = id;
            offset_us = offset best;
            rtt_us = rtt best;
            last_sync_time = now;
          } in
          let made : (initial_handshake id rounds now sent cs).0 ≡ insert id clock cs =
            unfold initial_handshake settle in rw (e, initial_handshake) in
          insert-cases id j clock c cs (ap (lookup j) (sym made) ∙ h)

  synchronise-done :
      (ref : ℕ) (rounds : List Round) (now : ℕ) (sent : Bool) (addr : GoString) (s srv : Server f)
      → synchronise f ref rounds now sent addr s ≡ (srv, serving ref)
      → let id = (s.session.heap ref).id in
        srv ≡ record s {
          clock = (initial_handshake id rounds now sent s.clock).0;
          stream = Stream.add_client id addr (s.session.heap ref).channel_assign s.stream;
        }
  synchronise-done ref rounds now sent addr s srv e =
      go (initial_handshake (s.session.heap ref).id rounds now sent s.clock).1 refl
    where
      go :
          (r : Clock.Result ℤ)
          → (initial_handshake (s.session.heap ref).id rounds now sent s.clock).1 ≡ r
          → let id = (s.session.heap ref).id in
            srv ≡ record s {
              clock = (initial_handshake id rounds now sent s.clock).0;
              stream = Stream.add_client id addr (s.session.heap ref).channel_assign s.stream;
            }
      go (Clock.err x) h =
          cc (e, failed_handshake f ref (s.session.heap ref).id rounds now sent addr s x refl h)
      go (Clock.ok offset) h = unfold synchronise in ground (arith, e, h)

  pub synced-Inv :
      (s : System f) (srv : Server f) (ref : ℕ) (rounds : List Round) (now : ℕ) (addr : GoString)
      → s.phase ref ≡ waiting
      → synchronise f ref rounds now true addr s.server ≡ (srv, serving ref)
      → Inv f s
      → Inv f (record { server = srv; phase = set_phase ref reading s.phase })
  unfolding Stream.add_client
  synced-Inv s srv ref rounds now addr w e v =
      subst (λ (k : Server f). Inv f (record { server = k; phase = set_phase ref reading s.phase }))
        (sym (synchronise-done ref rounds now true addr s.server srv e)) done
    where
      id : GoString
      id = (s.server.session.heap ref).id

      phase' : ℕ → Phase
      phase' = set_phase ref reading s.phase

      here : phase' ref ≡ reading
      here = set_phase_self ref reading s.phase

      below : ref < s.server.session.next_ref
      below = v.born ref (λ h. cc (w, h))

      turn : (P : Phase → Type 0) → P reading → (r : ℕ) → P (s.phase r) → P (phase' r)
      turn P p r q = elim (ℕ_discrete r ref) [
        | yes same ↦ subst P (sym (ap phase' same ∙ here)) p
        | no other ↦ subst P (sym (set_phase_ne ref r reading s.phase other)) q
      ]

      stays :
          (P : Phase → Type 0) (j : GoString)
          → P reading
          → Bearer f s.server.session s.phase P j
          → Bearer f s.server.session phase' P j
      stays P j p =
          Bearer-moves f s.server.session s.server.session s.phase phase' P P j (λ r h. refl)
            (omega arith) (λ r h bears q. turn P p r q)

      own :
          (P : Phase → Type 0) (j : GoString)
          → P reading
          → j ≡ id
          → Bearer f s.server.session phase' P j
      own P j p same = (ref, below, sym same, subst P (sym here) p)

      done :
          let old : Server f = s.server in
          Inv f (record {
            server = record old {
              clock = (initial_handshake id rounds now true old.clock).0;
              stream = Stream.add_client id addr (old.session.heap ref).channel_assign old.stream;
            };
            phase = phase';
          })
      done = record {
        session = v.session;
        frame_setter = v.frame_setter;
        born = λ r h. elim (ℕ_discrete r ref) [
          | yes same ↦ rw same below
          | no other ↦ v.born r (λ g. h (set_phase_ne ref r reading s.phase other ∙ g))
        ];
        in_session = λ j r h. turn IsOpen (inr refl) r (v.in_session j r h);
        in_stream = λ j c h. elim (insert-cases id j _ c s.server.stream.clients h) [
          | inl same ↦ own IsReading j refl same
          | inr known ↦ stays IsReading j refl (v.in_stream j c known)
        ];
        in_clock = λ j c h. elim (handshake-clocks id rounds now true s.server.clock j c h) [
          | inl same ↦ own IsClocked j (inl refl) same
          | inr known ↦ stays IsClocked j (inl refl) (v.in_clock j c known)
        ];
        in_latency = λ j c h. stays IsReading j refl (v.in_latency j c h);
      }
