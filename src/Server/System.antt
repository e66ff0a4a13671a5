-- ===== src/Server/System.antt =====
-- internal/server: all connections at once. Each stage of a connection, each message and each handler is
-- one step; they follow each other in any order. A connection is named by the pointer to its client.
use soundswamp.Prelude.{ℕ, ◌≡◌, Bool, true, false, Option, some, List, [], ◌==◌, if◌then◌else◌}
use soundswamp.Prelude.Table.{GoString}
use soundswamp.Prelude.Float.{Float}
use soundswamp.Session
use soundswamp.Session.Registry
use soundswamp.Session.Registry.{Session, new_session, evict_stale_clients}
use soundswamp.Clock
use soundswamp.Clock.{Round, ProbeResult, probe_rounds}
use soundswamp.Latency.{new_equalizer}
use soundswamp.Stream
use soundswamp.Stream.{Manager, BroadcastPacket, new_manager, send_audio, broadcast_step, receive}
use soundswamp.Server.{
  Server, rejected, dropped, serving, admit, synchronise, Message, handle_message, attach,
  disconnect, handle_kick, handle_channel_assign,
}

-- Where the goroutine of a connection stands: before its clock handshake, in its read loop, at its end,
-- or at its end with its clock left stored.
pub data Phase : Type 0 where
  waiting reading closed stranded : Phase

unfoldable pub set_phase : ℕ → Phase → (ℕ → Phase) → ℕ → Phase
set_phase ref p phase = λ r. if r == ref then p else phase r

module _ (f : Float) where
  pub record System : Type 0 where
    pub server : Server f
    pub phase : ℕ → Phase

  -- What main has when it starts the servers; the equalizer has both callbacks.
  abbrev pub start_system : Session f → System
  start_system session = record {
    server = record {
      session = session;
      stream = new_manager;
      clock = [];
      latency = new_equalizer f true true;
    };
    phase = λ r. closed;
  }

  abbrev pub with_session : Session f → Server f → Server f
  with_session session srv = record srv { session = session }

  abbrev pub with_stream : Manager → Server f → Server f
  with_stream m srv = record srv { stream = m }

  pub data Step (s : System) : System → Type 0 where
    -- handleConnection up to JOIN_ACCEPT, and the ways in which it ends there.
    join :
        {srv : Server f} (token name platform : GoString) (conn t u : ℕ) (random : Option (List ℕ))
        (ref : ℕ)
        → admit f token name platform conn t u random true s.server ≡ (srv, serving ref)
        → Step s (record { server = srv; phase = set_phase ref waiting s.phase })
    join_rejected :
        {srv : Server f} (token name platform : GoString) (conn t u : ℕ) (random : Option (List ℕ))
        (accept_sent : Bool)
        → admit f token name platform conn t u random accept_sent s.server ≡ (srv, rejected)
        → Step s (record { server = srv; phase = s.phase })
    join_dropped :
        {srv : Server f} (token name platform : GoString) (conn t u : ℕ) (random : Option (List ℕ))
        → admit f token name platform conn t u random false s.server ≡ (srv, dropped)
        → Step s (record { server = srv; phase = s.phase })
    -- The clock handshake.
    synced :
        {srv : Server f} (ref : ℕ) (rounds : List Round) (now : ℕ) (udp_addr : GoString)
        → s.phase ref ≡ waiting
        → synchronise f ref rounds now true udp_addr s.server ≡ (srv, serving ref)
        → Step s (record { server = srv; phase = set_phase ref reading s.phase })
    unanswered :
        (ref : ℕ) (rounds : List Round) (now : ℕ) (sent : Bool) (udp_addr : GoString)
        (x : Clock.Error)
        → s.phase ref ≡ waiting
        → probe_rounds rounds ≡ Clock.err x
        → Step s (record {
          server = (synchronise f ref rounds now sent udp_addr s.server).0;
          phase = set_phase ref closed s.phase;
        })
    unsent :
        (ref : ℕ) (rounds : List Round) (now : ℕ) (udp_addr : GoString) (rs : List ProbeResult)
        → s.phase ref ≡ waiting
        → probe_rounds rounds ≡ Clock.ok rs
        → Step s (record {
          server = (synchronise f ref rounds now false udp_addr s.server).0;
          phase = set_phase ref stranded s.phase;
        })
    -- The read loop, and its end.
    attached :
        (ref conn : ℕ)
        → s.phase ref ≡ reading
        → Step s (record { server = attach f ref conn s.server; phase = s.phase })
    message :
        {srv : Server f} (ref : ℕ) (m : Message f)
        → s.phase ref ≡ reading
        → handle_message f ref m s.server ≡ some srv
        → Step s (record { server = srv; phase = s.phase })
    leave :
        (ref : ℕ)
        → s.phase ref ≡ reading
        → Step s
            (record { server = disconnect f ref s.server; phase = set_phase ref closed s.phase })
    -- The handlers of the web interface and the heartbeat monitor.
    kick : (id : GoString) → Step s (record { server = handle_kick f id s.server; phase = s.phase })
    assign :
        (id : GoString) (channel : ℕ)
        → Step s
            (record { server = (handle_channel_assign f id channel s.server).0; phase = s.phase })
    evict :
        (now : ℕ)
        → Step s (record {
          server = with_session (evict_stale_clients f now s.server.session).0 s.server;
          phase = s.phase;
        })
    -- The audio pipeline, the sender and the receiver.
    queue :
        {m : Manager} (pkt : BroadcastPacket)
        → send_audio pkt s.server.stream ≡ Stream.done m
        → Step s (record { server = with_stream m s.server; phase = s.phase })
    send :
        {m : Manager} {out : List (GoString × List ℕ)} (writes : GoString → Bool)
        → broadcast_step writes s.server.stream ≡ some (m, out)
        → Step s (record { server = with_stream m s.server; phase = s.phase })
    datagram :
        (bytes : List ℕ) (remote : GoString)
        → Step s (record {
          server = with_stream (receive bytes remote s.server.stream) s.server;
          phase = s.phase;
        })

  -- The states of a server that began with a session of NewSession.
  pub data Reach : System → Type 0 where
    start :
        (random_id random_token : Option (List ℕ)) (now : ℕ) (heap : ℕ → Session.Client f)
        (session : Session f)
        → new_session f random_id random_token now heap ≡ Registry.ok session
        → Reach (start_system session)
    later : {s t : System} → Reach s → Step s t → Reach t
