-- ===== src/Server.antt =====
-- internal/server/tcp.go and internal/server/http.go: what a connection and the handlers do to the
-- session, the stream manager, the clocks and the equalizer. Messages come decoded, and whether a write
-- succeeds is an argument. Of the messages to clients there is only whom a broadcast goes to, each Send
-- taken as it is started; those to the user interface are left out. Each function is one stage of a
-- connection; stages of different connections follow each other in any order.
pub mod Lifecycle
pub mod System
pub mod Owners
pub mod Effects
pub mod Phases
pub mod Joins
pub mod Turns
pub mod Leaves
pub mod Quiet
pub mod Outbound
pub mod Fallback
pub mod Http
pub mod Requests
use soundswamp.Prelude.{ℕ, Bool, true, false, Option, none, some, List, [], ◌∷◌, if◌then◌else◌}
use soundswamp.Prelude.Int.{ℤ}
use soundswamp.Prelude.Table.{GoString, Table}
use soundswamp.Prelude.Float.{Float}
use soundswamp.Session
use soundswamp.Session.Registry
use soundswamp.Session.Registry.{Session, through, get_client}
use soundswamp.Clock
use soundswamp.Clock.{ClockSync, Round, initial_handshake, process_periodic_reply}
use soundswamp.Latency
use soundswamp.Latency.{Equalizer, Event, report_jitter}
use soundswamp.Stream
use soundswamp.Stream.{Manager}

module _ (f : Float) where
  -- The four components that a TCPServer is configured with, and the session that there is.
  pub record Server : Type 0 where
    pub session : Session f
    pub stream : Manager
    pub clock : ClockSync
    pub latency : Equalizer f

  -- How far a connection came: turned away with nothing to clean up, dropped, or in its read loop with
  -- the pointer to its client.
  pub data Stage : Type 0 where
    rejected : Stage
    dropped : Stage
    serving : ℕ → Stage

  -- Steps 2 and 3 of handleConnection: AddClient, then JOIN_ACCEPT.
  unfoldable pub admit :
      GoString → GoString → GoString → ℕ → ℕ → ℕ → Option (List ℕ) → Bool → Server → Server × Stage
  admit token name platform conn joined_at heartbeat_at random accept_sent s =
      let (sess, r, events) =
        Registry.add_client f token name platform conn joined_at heartbeat_at random s.session in
      elim r [
        | Registry.err e ↦ (record s { session = sess }, rejected)
        | Registry.ok ref ↦ if accept_sent then (record s { session = sess }, serving ref) else (
          record s { session = (Registry.remove_client f (sess.heap ref).id sess).0 },
          dropped,
        )
      ]

  -- Step 4 of handleConnection, and the registration of the client's UDP address after it.
  unfoldable pub synchronise : ℕ → List Round → ℕ → Bool → GoString → Server → Server × Stage
  synchronise ref rounds now offset_sent udp_addr s =
      let id = (s.session.heap ref).id in
      let (clocks, r) = initial_handshake id rounds now offset_sent s.clock in
      elim r [
        | Clock.err e ↦ (
          record s { session = (Registry.remove_client f id s.session).0; clock = clocks },
          dropped,
        )
        | Clock.ok offset ↦ (
          record s {
            clock = clocks;
            stream = Stream.add_client id udp_addr (s.session.heap ref).channel_assign s.stream;
          },
          serving ref,
        )
      ]

  -- The callback of main.go that the equalizer gets as frameSetter; a broadcast only sends messages.
  unfoldable pub perform : Event f → Server → Server
  perform (Latency.broadcast d) s = s
  perform (Latency.set_frame_size id ms) s =
      let s' = record s { stream = Stream.set_frame_size id ms s.stream } in
      elim (get_client f id s.session) [
        | none ↦ s'
        | some ref ↦ record s' { session = through f ref (Session.set_frame_size f ms) s.session }
      ]

  unfoldable pub perform_all : List (Event f) → Server → Server
  unfolding perform
  perform_all [] s = s
  perform_all (e ∷ es) s = perform_all es (perform e s)

  -- The messages of clientReadLoop, with the time of their receipt.
  pub data Message : Type 0 where
    heartbeat : ℕ → Message
    jitter_report : f.Carrier → ℕ → Message
    clock_sync_reply : ℤ → ℤ → ℤ → ℤ → ℕ → Bool → Message
    app_state_change : GoString → Message
    unknown : Message

  -- The body of clientReadLoop for one message; `none` is a panic.
  unfoldable pub handle_message : ℕ → Message → Server → Option Server
  unfolding perform_all
  handle_message ref (heartbeat now) s =
      some (record s { session = through f ref (Session.update_heartbeat f now) s.session })
  handle_message ref (jitter_report p95_ms now) s =
      let id = (s.session.heap ref).id in
      let s' = record s { session = through f ref (Session.set_jitter f p95_ms) s.session } in
      elim (report_jitter f id p95_ms now s.latency) [
        | Latency.panic ↦ none
        | Latency.done (e, events) ↦ some (perform_all events (record s' { latency = e }))
      ]
  handle_message ref (clock_sync_reply server_send client_recv client_send server_recv now sends)
        s =
      let id = (s.session.heap ref).id in
      some (record s {
        clock =
            (process_periodic_reply id server_send client_recv client_send server_recv now sends
              s.clock).0;
      })
  handle_message ref (app_state_change state) s =
      some (record s { session = through f ref (Session.set_app_state f state) s.session })
  handle_message ref unknown s = some s

  -- The start of clientReadLoop: the client at `ref` can be written to on its connection.
  unfoldable pub attach : ℕ → ℕ → Server → Server
  attach ref conn s = record s { session = through f ref (Session.set_write_func f conn) s.session }

  -- The clients that a message is written to, with their connections; Send drops it for the others.
  unfoldable pub for_each_client : (ℕ → Session.Client f) → Table GoString ℕ → List (ℕ × ℕ)
  for_each_client heap [] = []
  for_each_client heap ((id, ref) ∷ m) =
      let rest = for_each_client heap m in
      elim (Session.send f (heap ref)) [ none ↦ rest | some conn ↦ (ref, conn) ∷ rest ]

  -- BroadcastToAll.
  unfoldable pub broadcast_to_all : Server → List (ℕ × ℕ)
  unfolding for_each_client
  broadcast_to_all s = for_each_client s.session.heap s.session.clients

  -- The end of handleConnection, once the read loop has returned.
  unfoldable pub disconnect : ℕ → Server → Server
  disconnect ref s =
      let id = (s.session.heap ref).id in
      record {
        session = (Registry.remove_client f id s.session).0;
        stream = Stream.remove_client id s.stream;
        clock = Clock.remove_client id s.clock;
        latency = (Latency.remove_client f id s.latency).0;
      }

  -- handleKick, for a body that decodes.
  unfoldable pub handle_kick : GoString → Server → Server
  handle_kick id s = record s {
    session = (Registry.remove_client f id s.session).0;
    stream = Stream.remove_client id s.stream;
  }

  -- handleChannelAssign, for a body that decodes; `false` is the answer that there is no such client.
  unfoldable pub handle_channel_assign : GoString → ℕ → Server → Server × Bool
  handle_channel_assign id channel s = elim (get_client f id s.session) [
    | none ↦ (s, false)
    | some ref ↦ (
      record s {
        session = through f ref (Session.set_channel f channel) s.session;
        stream = Stream.set_channel id channel s.stream;
      },
      true,
    )
  ]
