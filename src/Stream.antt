-- ===== src/Stream.antt =====
-- internal/stream/manager.go: UDP distribution of audio. The socket and the clock are arguments: each
-- broadcast is given which writes succeed. Addresses are their text. Calls that run at once on other
-- goroutines are taken one after the other.
pub mod Queue
pub mod Send
pub mod Receive
pub mod Keys
pub mod Drain
pub mod History
use soundswamp.Prelude.{
  ℕ, suc, ◌+◌, ◌%◌, ◌^◌, Bool, true, false, ◌&&◌, ◌||◌, Option, none, some, List, [], ◌∷◌, ◌++◌,
  ◌==◌, not, ltb, if◌then◌else◌, length, take, replicate,
}
use soundswamp.Prelude.Int.{ℤ}
use soundswamp.Prelude.Table.{GoString, Table, lookup, insert, delete, string_eq, str_eq}
use soundswamp.Protocol.ChannelMask.{stereo_mix}
use soundswamp.Protocol.PacketType
use soundswamp.Protocol.CodecFlag
use soundswamp.Protocol.Packet.{
  Packet, protocol_version, max_payload_size, max_packet_size, ok, err,
}
use soundswamp.Protocol.Marshal.{marshal, marshal_into, unmarshal}

-- ClientStream.
pub record ClientStream : Type 0 where
  pub id : GoString
  pub addr : GoString
  pub seq_num : ℕ
  pub channel_assign : ℕ
  pub frame_size : ℕ
  pub active : Bool

-- broadcastPacket: the first `length` bytes of the pooled buffer stand for the buffer.
pub record BroadcastPacket : Type 0 where
  pub opus_data : List ℕ
  pub channel : ℕ
  pub capture_timestamp : ℤ
  pub codec_flag : ℕ

-- The capacity of broadcastChan.
abbrev pub queue_capacity : ℕ
queue_capacity = 200

-- Manager. The counters are exact: they stay far below 2 ^ 63.
pub record Manager : Type 0 where
  pub clients : Table GoString ClientStream
  pub running : Bool
  pub stopped : Bool
  pub broadcast_chan : List BroadcastPacket
  pub packet_buf : List ℕ
  pub total_packets_sent : ℕ
  pub total_bytes_sent : ℕ

-- What NewManager makes once the socket is open.
unfoldable pub new_manager : Manager
new_manager = record {
  clients = [];
  running = false;
  stopped = false;
  broadcast_chan = [];
  packet_buf = replicate max_packet_size 0;
  total_packets_sent = 0;
  total_bytes_sent = 0;
}

unfoldable pub add_client : GoString → GoString → ℕ → Manager → Manager
add_client id addr channel m = record m { clients = insert id fresh m.clients }
  where
    fresh : ClientStream
    fresh = record {
      id = id;
      addr = addr;
      seq_num = 0;
      channel_assign = channel;
      frame_size = 10;
      active = true;
    }

unfoldable pub remove_client : GoString → Manager → Manager
remove_client id m = record m { clients = delete id m.clients }

unfoldable pub set_channel : GoString → ℕ → Manager → Manager
set_channel id channel m = elim (lookup id m.clients) [
  | none ↦ m
  | some cs ↦ record m { clients = insert id (record cs { channel_assign = channel }) m.clients }
]

unfoldable pub set_frame_size : GoString → ℕ → Manager → Manager
set_frame_size id frame_ms m = elim (lookup id m.clients) [
  | none ↦ m
  | some cs ↦ record m { clients = insert id (record cs { frame_size = frame_ms }) m.clients }
]

pub data Outcome (A : Type 0) : Type 0 where
  done : A → Outcome A
  panic : Outcome A

-- SendAudio: the pooled buffer has `max_payload_size` bytes, and to slice it beyond that panics. A full
-- queue drops the frame.
unfoldable pub send_audio : BroadcastPacket → Manager → Outcome Manager
send_audio pkt m =
    if ltb max_payload_size (length pkt.opus_data)
    then panic
    else if ltb (length m.broadcast_chan) queue_capacity
    then done (record m { broadcast_chan = m.broadcast_chan ++ (pkt ∷ []) })
    else done m

-- The two guards that skip a client.
unfoldable pub selected : ℕ → ClientStream → Bool
selected channel cs =
    cs.active
    && not (
        not (channel == stereo_mix)
        && (not (cs.channel_assign == stereo_mix) && not (cs.channel_assign == channel)))

unfoldable pub audio_packet : BroadcastPacket → ClientStream → Packet
audio_packet pkt cs = record {
  version = protocol_version;
  type = PacketType.audio;
  seq_num = (cs.seq_num + 1) % 2 ^ 32;
  timestamp_us = pkt.capture_timestamp;
  channel_mask = pkt.channel;
  codec = pkt.codec_flag;
  payload = pkt.opus_data;
}

-- The clients' new states, the buffer, and the datagrams that went out, each with its address.
abbrev pub Sent : Type 0
Sent = Table GoString ClientStream × List ℕ × List (GoString × List ℕ)

-- A client, with its datagram if one went out, before what the loop does with the others.
unfoldable pub before : GoString → ClientStream → List (GoString × List ℕ) → Sent → Sent
before id cs mine (m, buf, out) = ((id, cs) ∷ m, buf, mine ++ out)

-- The loops of doSendAudio over the clients. `writes` is whether the socket takes the datagram for
-- a client.
unfoldable pub send_all :
    BroadcastPacket → (GoString → Bool) → Table GoString ClientStream → List ℕ → Sent
send_all pkt writes [] buf = ([], buf, [])
send_all pkt writes ((id, cs) ∷ m) buf =
    let skipped = before id cs [] (send_all pkt writes m buf) in
    let bumped : ClientStream = record cs { seq_num = (cs.seq_num + 1) % 2 ^ 32 } in
    let sent : Sent = elim (marshal_into (audio_packet pkt cs) buf) [
      | err e ↦ before id bumped [] (send_all pkt writes m buf)
      | ok (n, filled) ↦
          before id bumped (if writes id then (cs.addr, take n filled) ∷ [] else [])
            (send_all pkt writes m filled)
    ] in
    if selected pkt.channel cs then sent else skipped

unfoldable pub total_length : List (GoString × List ℕ) → ℕ
total_length [] = 0
total_length ((addr, bytes) ∷ out) = length bytes + total_length out

-- doSendAudio.
unfoldable pub do_send_audio :
    BroadcastPacket → (GoString → Bool) → Manager → Manager × List (GoString × List ℕ)
unfolding send_all total_length
do_send_audio pkt writes m =
    let (clients, buf, out) = send_all pkt writes m.clients m.packet_buf in
    (
      record m {
        clients = clients;
        packet_buf = buf;
        total_packets_sent = m.total_packets_sent + length out;
        total_bytes_sent = m.total_bytes_sent + total_length out;
      },
      out,
    )

-- One round of broadcastLoop that takes a frame from the queue.
unfoldable pub broadcast_step :
    (GoString → Bool) → Manager → Option (Manager × List (GoString × List ℕ))
broadcast_step writes m = elim m.broadcast_chan [
  | [] ↦ none
  | pkt ∷ rest ↦ some (do_send_audio pkt writes (record m { broadcast_chan = rest }))
]

-- SendClockSyncProbe, with the server's time: the datagram, if one is sent.
unfoldable pub send_clock_sync_probe : GoString → ℤ → Manager → Option (GoString × List ℕ)
send_clock_sync_probe id now m = elim (lookup id m.clients) [
  | none ↦ none
  | some cs ↦
      let pkt : Packet = record {
        version = protocol_version;
        type = PacketType.clock_sync_probe;
        seq_num = 0;
        timestamp_us = now;
        channel_mask = 0;
        codec = 0;
        payload = [];
      } in
      elim (marshal pkt) [ err e ↦ none | ok bytes ↦ some (cs.addr, bytes) ]
]

unfoldable pub blank : Packet
blank = record {
  version = 0;
  type = 0;
  seq_num = 0;
  timestamp_us = ℤ.pos 0;
  channel_mask = 0;
  codec = 0;
  payload = [];
}

-- A keep-alive: the payload is a client's identifier, and its address becomes the sender's.
unfoldable pub update_address : GoString → GoString → Manager → Manager
update_address id remote m = elim (lookup id m.clients) [
  | none ↦ m
  | some cs ↦
      if str_eq cs.addr remote
      then m
      else record m { clients = insert id (record cs { addr = remote }) m.clients }
]

-- The body of the receiver's loop for one datagram.
unfoldable pub receive : List ℕ → GoString → Manager → Manager
unfolding update_address blank
receive bytes remote m =
    let (pkt, e) = unmarshal blank bytes in
    elim e [
      | some x ↦ m
      | none ↦
          if pkt.type == PacketType.clock_sync_reply
          then m
          else if pkt.type == PacketType.keep_alive
          then update_address pkt.payload remote m
          else m
    ]

unfoldable pub start_receiver : Manager → Manager
start_receiver m = record m { running = true }

-- Stop: to close stopChan twice panics.
unfoldable pub stop : Manager → Outcome Manager
stop m = if m.stopped then panic else done (record m { running = false; stopped = true })

unfoldable pub stats : Manager → ℕ × ℕ
stats m = (m.total_packets_sent, m.total_bytes_sent)

unfoldable pub client_count : Manager → ℕ
client_count m = length m.clients
