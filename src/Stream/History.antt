-- ===== src/Stream/History.antt =====
-- internal/stream/manager.go: any history of calls, datagrams and rounds of the sender.
use mathlib.Core.Path.{subst}
use soundswamp.Prelude.{
  ℕ, zero, ◌^◌, ◌≤◌, ◌<◌, ◌≡◌, refl, ap, sym, inl, inr, Bool, Option, none, some, List, [], ◌∷◌,
  ◌++◌, arith, length, All, Bool-cases, Option-cases, length-replicate,
}
use soundswamp.Prelude.Table.{
  GoString, Table, lookup, insert, string_eq, str_eq, Unique, insert-Unique, delete-Unique,
  insert-All, delete-All, lookup-All,
}
use soundswamp.Protocol.Packet.{max_packet_size}
use soundswamp.Stream.{
  Manager, ClientStream, BroadcastPacket, done, panic, new_manager, add_client, remove_client,
  set_channel, set_frame_size, send_audio, do_send_audio, broadcast_step, update_address, receive,
  start_receiver, queue_capacity, blank,
}
use soundswamp.Stream.Queue.{broadcast_step_fifo, send_audio_lem}
use soundswamp.Stream.Send.{hears, IsFrame, advanced, do_send_audio_lem}
use soundswamp.Stream.Keys.{receive-cases}

-- An entry of the map of clients: the stream bears its key, and its sequence number is a uint32.
abbrev pub IsStream : GoString × ClientStream → Type 0
IsStream (id, cs) = (cs.id ≡ id) × (cs.seq_num < 2 ^ 32)

-- The map has each client once, under its identifier; the packet buffer has its full size; and the queue
-- is within its capacity and has frames that fit a packet.
pub record IsManager (m : Manager) : Type 0 where
  pub unique : Unique m.clients
  pub streams : All IsStream m.clients
  pub buffer : length m.packet_buf ≡ max_packet_size
  pub room : length m.broadcast_chan ≤ queue_capacity
  pub frames : All IsFrame m.broadcast_chan

lookup-advanced :
    (pkt : BroadcastPacket) (id : GoString) (m : Table GoString ClientStream)
    → lookup id m ≡ none
    → lookup id (advanced pkt m) ≡ none
unfolding lookup
lookup-advanced pkt id [] h = refl
lookup-advanced pkt id ((j, cs) ∷ m) h = elim (Bool-cases (str_eq j id)) [
  | inl same ↦ absurd (ground (arith, same, h))
  | inr other ↦ rw other (lookup-advanced pkt id m (ground (arith, other, h)))
]

advanced-Unique :
    (pkt : BroadcastPacket) (m : Table GoString ClientStream) → Unique m → Unique (advanced pkt m)
advanced-Unique pkt [] u = tt
advanced-Unique pkt ((j, cs) ∷ m) u = (lookup-advanced pkt j m u.0, advanced-Unique pkt m u.1)

advanced-All :
    (pkt : BroadcastPacket) (m : Table GoString ClientStream)
    → All IsStream m
    → All IsStream (advanced pkt m)
advanced-All pkt [] h = tt
advanced-All pkt ((j, cs) ∷ m) h = elim (Bool-cases (hears pkt.channel cs)) [
  | inl hit ↦ rw hit ((h.0.0, omega arith), advanced-All pkt m h.1)
  | inr skip ↦ rw skip (h.0, advanced-All pkt m h.1)
]

-- One client's stream, replaced by another that is as good.
replaced-IsManager :
    (id : GoString) (cs : ClientStream) (m : Manager)
    → IsManager m
    → IsStream (id, cs)
    → IsManager (record m { clients = insert id cs m.clients })
replaced-IsManager id cs m v h = record {
  unique = insert-Unique id cs m.clients v.unique;
  streams = insert-All IsStream id cs m.clients h v.streams;
  buffer = v.buffer;
  room = v.room;
  frames = v.frames;
}

set_channel-IsManager :
    (id : GoString) (channel : ℕ) (m : Manager) → IsManager m → IsManager (set_channel id channel m)
set_channel-IsManager id channel m v = elim (Option-cases (lookup id m.clients)) [
  | inl e ↦ unfold set_channel in rw (e, set_channel) v
  | inr (cs, e) ↦
      unfold set_channel in
      rw (e, set_channel)
        (replaced-IsManager id (record cs { channel_assign = channel }) m v
          (lookup-All IsStream id cs m.clients v.streams e))
]

set_frame_size-IsManager :
    (id : GoString) (ms : ℕ) (m : Manager) → IsManager m → IsManager (set_frame_size id ms m)
set_frame_size-IsManager id ms m v = elim (Option-cases (lookup id m.clients)) [
  | inl e ↦ unfold set_frame_size in rw (e, set_frame_size) v
  | inr (cs, e) ↦
      unfold set_frame_size in
      rw (e, set_frame_size)
        (replaced-IsManager id (record cs { frame_size = ms }) m v
          (lookup-All IsStream id cs m.clients v.streams e))
]

update_address-IsManager :
    (id remote : GoString) (m : Manager) → IsManager m → IsManager (update_address id remote m)
update_address-IsManager id remote m v = elim (Option-cases (lookup id m.clients)) [
  | inl e ↦ unfold update_address in rw (e, update_address) v
  | inr (cs, e) ↦ elim (Bool-cases (str_eq cs.addr remote)) [
    | inl same ↦ unfold update_address in rw (e, update_address, same) v
    | inr moved ↦
        unfold update_address in
        rw (e, update_address, moved)
          (replaced-IsManager id (record cs { addr = remote }) m v
            (lookup-All IsStream id cs m.clients v.streams e))
  ]
]

receive-IsManager :
    (bytes : List ℕ) (remote : GoString) (m : Manager)
    → IsManager m
    → IsManager (receive bytes remote m)
receive-IsManager bytes remote m v = elim (receive-cases bytes remote m) [
  | inl same ↦ rw same v
  | inr (id, moved) ↦ rw moved (update_address-IsManager id remote m v)
]

All-snoc :
    {A : Type 0} (P : A → Type 0) (xs : List A) (x : A) → All P xs → P x → All P (xs ++ (x ∷ []))
All-snoc P [] x h p = (p, tt)
All-snoc P (y ∷ xs) x h p = (h.0, All-snoc P xs x h.1 p)

send_audio-IsManager :
    (pkt : BroadcastPacket) (m : Manager)
    → IsFrame pkt
    → IsManager m
    → (m' : Manager) × (send_audio pkt m ≡ done m') × IsManager m'
send_audio-IsManager pkt m f v = elim (send_audio_lem pkt m v.room) [
  | inl (large, _) ↦ absurd (omega (arith, f.data_fits))
  | inr (m', _, e, room, inl (_, same)) ↦ (
    m',
    e,
    subst IsManager (sym same) (record {
      unique = v.unique;
      streams = v.streams;
      buffer = v.buffer;
      room = subst (λ (k : Manager). length k.broadcast_chan ≤ queue_capacity) same room;
      frames = All-snoc IsFrame m.broadcast_chan pkt v.frames f;
    }),
  )
  | inr (m', _, e, _, inr (_, same)) ↦ (m', e, subst IsManager (sym same) v)
]

-- A round of the sender, whatever the socket answers.
broadcast_step-IsManager :
    (writes : GoString → Bool) (m m' : Manager) (out : List (GoString × List ℕ))
    → broadcast_step writes m ≡ some (m', out)
    → IsManager m
    → IsManager m'
broadcast_step-IsManager writes m m' out e v = go m.broadcast_chan refl
  where
    go : (q : List BroadcastPacket) → m.broadcast_chan ≡ q → IsManager m'
    go [] h = absurd (unfold broadcast_step in ground (arith, h, e))
    go (pkt ∷ rest) h =
        let (taken, left) = broadcast_step_fifo writes m pkt rest h in
        let before : Manager = record m { broadcast_chan = rest } in
        let s = do_send_audio pkt writes before in
        let frames : All IsFrame (pkt ∷ rest) = subst (All IsFrame) h v.frames in
        let (clients, _, _, _, size) =
          do_send_audio_lem pkt writes before s.0 blank s.1 frames.0 v.buffer refl in
        let same : s.0 ≡ m' = ground (arith, taken, e) in
        subst IsManager same (record {
          unique = subst Unique (sym clients) (advanced-Unique pkt m.clients v.unique);
          streams = subst (All IsStream) (sym clients) (advanced-All pkt m.clients v.streams);
          buffer = size;
          room = omega (arith, ap length left, ap length h, v.room);
          frames = subst (All IsFrame) (sym left) frames.1;
        })

-- What reaches the manager.
pub data Op : Type 0 where
  join : GoString → GoString → ℕ → Op
  leave : GoString → Op
  channel : GoString → ℕ → Op
  frame_size : GoString → ℕ → Op
  audio : BroadcastPacket → Op
  round : (GoString → Bool) → Op
  datagram : List ℕ → GoString → Op
  receiver : Op

-- `none` is a panic.
unfoldable pub apply : Op → Manager → Option Manager
apply (join id addr ch) m = some (add_client id addr ch m)
apply (leave id) m = some (remove_client id m)
apply (channel id ch) m = some (set_channel id ch m)
apply (frame_size id ms) m = some (set_frame_size id ms m)
apply (audio pkt) m = elim (send_audio pkt m) [ panic ↦ none | done m' ↦ some m' ]
apply (round writes) m = elim (broadcast_step writes m) [ none ↦ some m | some (m', out) ↦ some m' ]
apply (datagram bytes remote) m = some (receive bytes remote m)
apply receiver m = some (start_receiver m)

unfoldable pub run : List Op → Manager → Option Manager
unfolding apply
run [] m = some m
run (op ∷ ops) m = elim (apply op m) [ none ↦ none | some m' ↦ run ops m' ]

-- A frame that is queued fits a packet; the other operations are not restricted.
abbrev pub Fits : Op → Type 0
Fits (join id addr ch) = Unit {0}
Fits (leave id) = Unit {0}
Fits (channel id ch) = Unit {0}
Fits (frame_size id ms) = Unit {0}
Fits (audio pkt) = IsFrame pkt
Fits (round writes) = Unit {0}
Fits (datagram bytes remote) = Unit {0}
Fits receiver = Unit {0}

apply-IsManager :
    (op : Op) (m : Manager)
    → Fits op
    → IsManager m
    → (m' : Manager) × (apply op m ≡ some m') × IsManager m'
unfolding apply
apply-IsManager (join id addr ch) m h v =
    (_, refl, unfold add_client in replaced-IsManager id _ m v (refl, omega arith))
apply-IsManager (leave id) m h v = (
  remove_client id m,
  refl,
  unfold remove_client in
      record {
        unique = delete-Unique id m.clients v.unique;
        streams = delete-All IsStream id m.clients v.streams;
        buffer = v.buffer;
        room = v.room;
        frames = v.frames;
      },
)
apply-IsManager (channel id ch) m h v = (_, refl, set_channel-IsManager id ch m v)
apply-IsManager (frame_size id ms) m h v = (_, refl, set_frame_size-IsManager id ms m v)
apply-IsManager (audio pkt) m h v =
    let (m', e, v') = send_audio-IsManager pkt m h v in (m', rw (e, apply), v')
apply-IsManager (round writes) m h v = elim (Option-cases (broadcast_step writes m)) [
  | inl e ↦ (m, rw (e, apply), v)
  | inr ((m', out), e) ↦ (m', rw (e, apply), broadcast_step-IsManager writes m m' out e v)
]
apply-IsManager (datagram bytes remote) m h v = (_, refl, receive-IsManager bytes remote m v)
apply-IsManager receiver m h v = (
  start_receiver m,
  refl,
  unfold start_receiver in
      record {
        unique = v.unique;
        streams = v.streams;
        buffer = v.buffer;
        room = v.room;
        frames = v.frames;
      },
)

run_from :
    (ops : List Op) (m : Manager)
    → All Fits ops
    → IsManager m
    → (m' : Manager) × (run ops m ≡ some m') × IsManager m'
unfolding run
run_from [] m h v = (m, refl, v)
run_from (op ∷ ops) m h v =
    let (m1, e1, v1) = apply-IsManager op m h.0 v in
    let (m2, e2, v2) = run_from ops m1 h.1 v1 in (m2, rw (e1, run) e2, v2)

-- From a new manager, no history of joins, departures, assignments, frames that fit a packet, rounds of the
-- sender and datagrams, whatever they hold, panics. After it every client stands once, under its own
-- identifier, with a sequence number of 32 bits, the packet buffer has its full size, and the queue is
-- within its capacity.
pub run-IsManager :
    (ops : List Op) → All Fits ops → (m : Manager) × (run ops new_manager ≡ some m) × IsManager m
run-IsManager ops h = run_from ops new_manager h (
    unfold new_manager in
    record {
      unique = tt;
      streams = tt;
      buffer = length-replicate max_packet_size zero;
      room = omega arith;
      frames = tt;
    })
