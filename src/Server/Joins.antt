-- ===== src/Server/Joins.antt =====
-- internal/server/tcp.go: handleConnection up to JOIN_ACCEPT, and the owners of what it adds.
use mathlib.Core.Path.{subst}
use native.Mathlib.Decide.{ℕ_discrete}
use soundswamp.Prelude.{
  ℕ, suc, ◌≡◌, ◌≢◌, refl, sym, ap, ◌∙◌, ◌⊎◌, inl, inr, Bool, true, false, Option, some, List, [],
  ◌∷◌, arith, if◌then◌else◌, Option-cases, Bool-cases,
}
use soundswamp.Prelude.Table.{
  GoString, lookup, insert, string_eq, str_eq, str_eq_iff, insert-Unique, lookup-insert,
}
use soundswamp.Prelude.Float.{Float}
use soundswamp.Session.{new_client}
use soundswamp.Session.Registry
use soundswamp.Session.Registry.{Session, add_client, write_heap}
use soundswamp.Session.Invariant
use soundswamp.Session.Invariant.{
  Placed-insert, Placed-new, remove_client-Inv, add_client_lem, lookup-Placed,
}
use soundswamp.Session.Evict.{remove_client-next}
use soundswamp.Session.Ids.{generate_client_id}
use soundswamp.Server.{Server, rejected, dropped, serving, admit}
use soundswamp.Server.System.{System, Phase, waiting, closed, set_phase}
use soundswamp.Server.Owners.{IsReading, IsOpen, IsClocked, Bearer, Inv, Bearer-moves}
use soundswamp.Server.Phases.{
  set_phase_self, set_phase_ne, closed-cases, removed-Other, removed-Bearer,
}

module _ (f : Float) where
  -- What AddClient makes of a session for a new client.
  abbrev added : GoString → GoString → GoString → ℕ → ℕ → ℕ → Session f → Session f
  added id name platform conn t u s = record s {
    clients = insert id s.next_ref s.clients;
    heap = write_heap f s.next_ref (new_client f id name platform conn t u) s.heap;
    next_ref = suc s.next_ref;
  }

  admit-cases :
      (token name platform : GoString) (conn t u : ℕ) (random : Option (List ℕ)) (sent : Bool)
      (s : Server f)
      → (admit f token name platform conn t u random sent s ≡ (s, rejected))
        ⊎ ((id : GoString) × let s' = added id name platform conn t u s.session in
              admit f token name platform conn t u random sent s ≡ (
                if sent
                then (record s { session = s' }, serving s.session.next_ref)
                else (record s { session = (Registry.remove_client f id s').0 }, dropped)))
  admit-cases token name platform conn t u random sent s =
      elim (Bool-cases (str_eq token s.session.token)) [
        | inr wrong ↦
            inl (refused Registry.invalid_token (unfold add_client in rw (add_client, wrong)))
        | inl right ↦ elim (Option-cases (generate_client_id random)) [
          | inl e ↦
              inl (refused Registry.no_randomness (unfold add_client in rw (add_client, right, e)))
          | inr (id, e) ↦ inr (
            id,
            taken id (if s.session.has_on_join then Registry.joined s.session.next_ref ∷ [] else [])
                (unfold add_client in rw (add_client, right, e)),
          )
        ]
      ]
    where
      refused :
          (x : Registry.Error)
          → add_client f token name platform conn t u random s.session
            ≡ (s.session, Registry.err x, [])
          → admit f token name platform conn t u random sent s ≡ (s, rejected)
      refused x h = unfold admit in ground (arith, h)

      taken :
          (id : GoString) (events : List Registry.Event)
          → add_client f token name platform conn t u random s.session
            ≡ (added id name platform conn t u s.session, Registry.ok s.session.next_ref, events)
          → admit f token name platform conn t u random sent s ≡ (
              if sent
              then (
                record s { session = added id name platform conn t u s.session },
                serving s.session.next_ref,
              )
              else (
                record s {
                  session =
                      (Registry.remove_client f id (added id name platform conn t u s.session)).0;
                },
                dropped,
              ))
      taken id events h =
          let own : ((added id name platform conn t u s.session).heap s.session.next_ref).id ≡ id =
            unfold write_heap new_client in ground arith in
          unfold admit in ground (arith, h, own)

  -- Who bore an identifier before AddClient still does.
  added-Bearer :
      (new name platform : GoString) (conn t u : ℕ) (s : Session f) (phase phase' : ℕ → Phase)
      (P : Phase → Type 0) (id : GoString)
      → ((r : ℕ) → r ≢ s.next_ref → phase' r ≡ phase r)
      → Bearer f s phase P id
      → Bearer f (added new name platform conn t u s) phase' P id
  added-Bearer new name platform conn t u s phase phase' P id same b =
      Bearer-moves f s (added new name platform conn t u s) phase phase' P P id
        (λ r below. unfold write_heap in ground arith) (omega arith)
        (λ r below bears p. subst P (sym (same r (omega arith))) p) b

  added-session-Inv :
      (new name platform : GoString) (conn t u : ℕ) (s : Session f)
      → Invariant.Inv f s
      → Invariant.Inv f (added new name platform conn t u s)
  added-session-Inv new name platform conn t u s v = record {
    unique = insert-Unique new s.next_ref s.clients v.unique;
    placed =
        Placed-insert f (write_heap f s.next_ref (new_client f new name platform conn t u) s.heap)
          (suc s.next_ref) s.next_ref new s.clients (omega arith)
          (unfold write_heap new_client in ground arith)
          (Placed-new f s.heap s.next_ref (new_client f new name platform conn t u) s.clients
            v.placed);
  }

  added-clients :
      (new name platform : GoString) (conn t u : ℕ) (s : Session f) (phase : ℕ → Phase)
      (j : GoString) (r : ℕ)
      → Invariant.Inv f s
      → lookup j (added new name platform conn t u s).clients ≡ some r
      → ((j ≡ new) × (r ≡ s.next_ref)) ⊎ ((r ≢ s.next_ref) × (lookup j s.clients ≡ some r))
  added-clients new name platform conn t u s phase j r v h = elim (Bool-cases (str_eq new j)) [
    | inl same ↦ inl (
      sym ((str_eq_iff new j).0 same),
      ground (arith, lookup-insert new j s.next_ref s.clients, h, same),
    )
    | inr other ↦
        let old : lookup j s.clients ≡ some r =
          ground (arith, lookup-insert new j s.next_ref s.clients, h, other) in
        let (below, _) = lookup-Placed f s.heap s.next_ref r j s.clients v.placed old in
        inr ((λ p. omega arith), old)
  ]

  pub join-Inv :
      (s : System f) (srv : Server f) (token name platform : GoString) (conn t u : ℕ)
      (random : Option (List ℕ)) (ref : ℕ)
      → admit f token name platform conn t u random true s.server ≡ (srv, serving ref)
      → Inv f s
      → Inv f (record { server = srv; phase = set_phase ref waiting s.phase })
  join-Inv s srv token name platform conn t u random ref e v =
      elim (admit-cases token name platform conn t u random true s.server) [
        | inl h ↦ cc (e, h)
        | inr (id, h) ↦
            let session' = added id name platform conn t u s.server.session in
            let old : Server f = s.server in
            let place : s.server.session.next_ref ≡ ref = ground (arith, e, h) in
            let state : record old { session = session' } ≡ srv = ground (arith, e, h) in
            subst (λ (k : ℕ). Inv f (record { server = srv; phase = set_phase k waiting s.phase }))
              place
              (subst
                (λ (k : Server f). Inv f (record {
                  server = k;
                  phase = set_phase s.server.session.next_ref waiting s.phase;
                }))
                state (joined id))
      ]
    where
      next : ℕ
      next = s.server.session.next_ref

      fresh : s.phase next ≡ closed
      fresh = elim (closed-cases (s.phase next)) [
        | inl h ↦ h
        | inr h ↦ absurd (omega (arith, v.born next h))
      ]

      keeps : (r : ℕ) → r ≢ next → set_phase next waiting s.phase r ≡ s.phase r
      keeps r h = set_phase_ne next r waiting s.phase h

      joined :
          (id : GoString)
          → let old : Server f = s.server in
            Inv f (record {
              server = record old { session = added id name platform conn t u s.server.session };
              phase = set_phase next waiting s.phase;
            })
      joined id = record {
        session = added-session-Inv id name platform conn t u s.server.session v.session;
        frame_setter = v.frame_setter;
        born = λ r h. elim (ℕ_discrete r next) [
          | yes same ↦ omega arith
          | no other ↦ let b = v.born r (λ g. h (keeps r other ∙ g)) in omega arith
        ];
        in_session = λ j r h.
            elim (added-clients id name platform conn t u s.server.session s.phase j r v.session
              h) [
                | inl (_, here) ↦
                    inl (
                      ap (set_phase next waiting s.phase) here
                      ∙ set_phase_self next waiting s.phase)
                | inr (there, known) ↦ subst IsOpen (sym (keeps r there)) (v.in_session j r known)
              ];
        in_stream = λ j c h.
            added-Bearer id name platform conn t u s.server.session s.phase _ IsReading j keeps
              (v.in_stream j c h);
        in_clock = λ j c h.
            added-Bearer id name platform conn t u s.server.session s.phase _ IsClocked j keeps
              (v.in_clock j c h);
        in_latency = λ j c h.
            added-Bearer id name platform conn t u s.server.session s.phase _ IsReading j keeps
              (v.in_latency j c h);
      }

  pub join_rejected-Inv :
      (s : System f) (srv : Server f) (token name platform : GoString) (conn t u : ℕ)
      (random : Option (List ℕ)) (sent : Bool)
      → admit f token name platform conn t u random sent s.server ≡ (srv, rejected)
      → Inv f s
      → Inv f (record { server = srv; phase = s.phase })
  join_rejected-Inv s srv token name platform conn t u random sent e v =
      elim (admit-cases token name platform conn t u random sent s.server) [
        | inl h ↦
            let state : s.server ≡ srv = ground (arith, e, h) in
            subst (λ (k : Server f). Inv f (record { server = k; phase = s.phase })) state v
        | inr (id, h) ↦ absurd (ground (arith, e, h))
      ]

  pub join_dropped-Inv :
      (s : System f) (srv : Server f) (token name platform : GoString) (conn t u : ℕ)
      (random : Option (List ℕ))
      → admit f token name platform conn t u random false s.server ≡ (srv, dropped)
      → Inv f s
      → Inv f (record { server = srv; phase = s.phase })
  join_dropped-Inv s srv token name platform conn t u random e v =
      elim (admit-cases token name platform conn t u random false s.server) [
        | inl h ↦ cc (e, h)
        | inr (id, h) ↦
            let old : Server f = s.server in
            let state : record old { session = (Registry.remove_client f id (after id)).0 } ≡ srv =
              ground (arith, e, h) in
            subst (λ (k : Server f). Inv f (record { server = k; phase = s.phase })) state (left id)
      ]
    where
      after : GoString → Session f
      after id = added id name platform conn t u s.server.session

      both :
          (id j : GoString) (P : Phase → Type 0)
          → Bearer f s.server.session s.phase P j
          → Bearer f (Registry.remove_client f id (after id)).0 s.phase P j
      both id j P b =
          removed-Bearer f id (after id) s.phase s.phase P P j (λ r below h p. p)
            (added-Bearer id name platform conn t u s.server.session s.phase s.phase P j
              (λ r h. refl) b)

      left :
          (id : GoString)
          → let old : Server f = s.server in
            Inv f (record {
              server = record old { session = (Registry.remove_client f id (after id)).0 };
              phase = s.phase;
            })
      left id = record {
        session =
            remove_client-Inv f id (after id)
              (added-session-Inv id name platform conn t u s.server.session v.session);
        frame_setter = v.frame_setter;
        born = λ r h. let b = v.born r h in omega (arith, remove_client-next f id (after id));
        in_session = λ j r h.
            let (ne, there) = removed-Other f id j r (after id) h in
            elim (added-clients id name platform conn t u s.server.session s.phase j r v.session
              there) [ inl (same, _) ↦ absurd (ne same) | inr (_, known) ↦ v.in_session j r known ];
        in_stream = λ j c h. both id j IsReading (v.in_stream j c h);
        in_clock = λ j c h. both id j IsClocked (v.in_clock j c h);
        in_latency = λ j c h. both id j IsReading (v.in_latency j c h);
      }
