-- ===== src/Server/Quiet.antt =====
-- internal/server: every reachable state, and what is left when every connection has ended.
use mathlib.Core.Path.{subst}
use soundswamp.Prelude.{ℕ, ◌≡◌, refl, inl, inr, Option, none, some, List, [], arith, Option-cases}
use soundswamp.Prelude.Table.{GoString, Table, lookup, string_eq, no_keys}
use soundswamp.Prelude.Float.{Float}
use soundswamp.Session.{Client}
use soundswamp.Session.Registry
use soundswamp.Session.Registry.{Session, new_session}
use soundswamp.Session.Evict.{run_session-Inv, run}
use soundswamp.Latency.{new_equalizer}
use soundswamp.Stream.{new_manager}
use soundswamp.Stream.Keys.{broadcast_step-KeysOf, send_audio-clients, receive-KeysOf}
use soundswamp.Server.{Server, Message, handle_message}
use soundswamp.Server.System.{
  System, reading, closed, start_system, Step, join, join_rejected, join_dropped, synced,
  unanswered, unsent, message, attached, leave, kick, assign, evict, queue, send, datagram, Reach,
  start, later,
}
use soundswamp.Server.Owners.{Inv, Effect, Effect-Inv}
use soundswamp.Server.Effects.{
  Nobody, stream-Effect, handle_message-Effect, attach-Effect, handle_kick-Effect,
  handle_channel_assign-Effect, evict-Effect,
}
use soundswamp.Server.Joins.{join-Inv, join_rejected-Inv, join_dropped-Inv}
use soundswamp.Server.Turns.{synced-Inv}
use soundswamp.Server.Leaves.{unanswered-Inv, unsent-Inv, leave-Inv}

module _ (f : Float) where
  start-Inv :
      (random_id random_token : Option (List ℕ)) (now : ℕ) (heap : ℕ → Client f)
      (session : Session f)
      → new_session f random_id random_token now heap ≡ Registry.ok session
      → Inv f (start_system f session)
  start-Inv random_id random_token now heap session e = record {
    session = unfold run in run_session-Inv f random_id random_token now heap session [] e;
    frame_setter = unfold new_equalizer in refl;
    born = λ r h. absurd (h refl);
    in_session = λ id ref h.
        let none_yet : session.clients ≡ [] = unfold new_session in ground arith in
        cc (subst (λ (m : Table GoString ℕ). lookup id m ≡ some ref) none_yet h, empty id);
    in_stream = λ id c h. unfold new_manager lookup in cc;
    in_clock = λ id c h. unfold lookup in cc;
    in_latency = λ id r h. unfold new_equalizer lookup in cc;
  }
    where
      empty : (id : GoString) → lookup id (let m : Table GoString ℕ = [] in m) ≡ none
      empty id = unfold lookup in refl

  within :
      (s : System f) (t : Server f)
      → Inv f s
      → Effect f Nobody s.server t
      → Inv f (record { server = t; phase = s.phase })
  within s t v x = Effect-Inv f Nobody s t v x (λ id nobody. absurd nobody)

  Step-Inv : {s t : System f} → Step f s t → Inv f s → Inv f t
  Step-Inv {s} (join token name platform conn t u random ref e) v =
      join-Inv f s _ token name platform conn t u random ref e v
  Step-Inv {s} (join_rejected token name platform conn t u random sent e) v =
      join_rejected-Inv f s _ token name platform conn t u random sent e v
  Step-Inv {s} (join_dropped token name platform conn t u random e) v =
      join_dropped-Inv f s _ token name platform conn t u random e v
  Step-Inv {s} (synced ref rounds now addr w e) v = synced-Inv f s _ ref rounds now addr w e v
  Step-Inv {s} (unanswered ref rounds now sent addr x w e) v =
      unanswered-Inv f s ref rounds now sent addr x w e v
  Step-Inv {s} (unsent ref rounds now addr rs w e) v = unsent-Inv f s ref rounds now addr rs w e v
  Step-Inv {s} (message ref m w e) v = handled s ref m _ w e v
    where
      handled :
          (s : System f) (ref : ℕ) (m : Message f) (t : Server f)
          → s.phase ref ≡ reading
          → handle_message f ref m s.server ≡ some t
          → Inv f s
          → Inv f (record { server = t; phase = s.phase })
      handled s ref m t w e v =
          let (t', e', x) = handle_message-Effect f ref m s.server v.session v.frame_setter in
          let same : t' ≡ t = ground (arith, e, e') in
          subst (λ (k : Server f). Inv f (record { server = k; phase = s.phase })) same
            (Effect-Inv f (λ id. (s.server.session.heap ref).id ≡ id) s t' v x
              (λ id bears. (ref, v.born ref (λ h. cc (w, h)), bears, w)))
  Step-Inv {s} (attached ref conn w) v = within s _ v (attach-Effect f ref conn s.server v.session)
  Step-Inv {s} (leave ref w) v = leave-Inv f s ref w v
  Step-Inv {s} (kick id) v = within s _ v (handle_kick-Effect f id s.server v.session)
  Step-Inv {s} (assign id channel) v =
      within s _ v (handle_channel_assign-Effect f id channel s.server v.session)
  Step-Inv {s} (evict now) v = within s _ v (evict-Effect f now s.server v.session)
  Step-Inv {s} (queue {m} pkt e) v = within s _ v (
      stream-Effect f s.server m v.session
        (rw (send_audio-clients pkt s.server.stream m e) (λ k c h. (c, h))))
  Step-Inv {s} (send {m} {out} writes e) v =
      within s _ v (
        stream-Effect f s.server m v.session (broadcast_step-KeysOf writes s.server.stream m out e))
  Step-Inv {s} (datagram bytes remote) v =
      within s _ v
        (stream-Effect f s.server _ v.session (receive-KeysOf bytes remote s.server.stream))

  -- In every reachable state, however the stages of the connections, their messages, the handlers, the
  -- evictions and the audio are interleaved: the session is well formed, its entries belong to open
  -- connections, streams and jitter reports to connections in their read loop, and clocks to ones in their
  -- read loop or with an offset that could not be sent.
  pub Reach-Inv : (s : System f) → Reach f s → Inv f s
  Reach-Inv s (start random_id random_token now heap session e) =
      start-Inv random_id random_token now heap session e
  Reach-Inv s (later r st) = Step-Inv st (Reach-Inv _ r)

  -- No message of a client in its read loop makes the server panic, in any reachable state.
  pub Reach-handles :
      (s : System f) (ref : ℕ) (m : Message f)
      → Reach f s
      → s.phase ref ≡ reading
      → (t : Server f) × (handle_message f ref m s.server ≡ some t)
        × Reach f (record { server = t; phase = s.phase })
  Reach-handles s ref m r w =
      let v = Reach-Inv s r in
      let (t, e, _) = handle_message-Effect f ref m s.server v.session v.frame_setter in
      (t, e, later r (message ref m w e))

  -- When every connection of a reachable state has ended with its clock removed, the session, the stream
  -- manager, the clocks and the jitter reports are empty: nothing is left behind by any interleaving.
  pub quiet_server_empty :
      (s : System f)
      → Reach f s
      → ((r : ℕ) → s.phase r ≡ closed)
      → (s.server.session.clients ≡ [])
        × (s.server.stream.clients ≡ [])
        × (s.server.clock ≡ [])
        × (s.server.latency.reports ≡ [])
  quiet_server_empty s r all =
      let v = Reach-Inv s r in
      (
        no_keys s.server.session.clients (λ id.
            elim (Option-cases (lookup id s.server.session.clients)) [
              | inl e ↦ e
              | inr (ref, e) ↦ elim (v.in_session id ref e) [
                | inl w ↦ cc (w, all ref)
                | inr w ↦ cc (w, all ref)
              ]
            ]),
        no_keys s.server.stream.clients (λ id.
            elim (Option-cases (lookup id s.server.stream.clients)) [
              | inl e ↦ e
              | inr (c, e) ↦ let (ref, _, _, w) = v.in_stream id c e in cc (w, all ref)
            ]),
        no_keys s.server.clock (λ id. elim (Option-cases (lookup id s.server.clock)) [
          | inl e ↦ e
          | inr (c, e) ↦
              let (ref, _, _, w) = v.in_clock id c e in
              elim w [ inl h ↦ cc (h, all ref) | inr h ↦ cc (h, all ref) ]
        ]),
        no_keys s.server.latency.reports (λ id.
            elim (Option-cases (lookup id s.server.latency.reports)) [
              | inl e ↦ e
              | inr (c, e) ↦ let (ref, _, _, w) = v.in_latency id c e in cc (w, all ref)
            ]),
      )
