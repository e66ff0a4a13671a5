-- ===== src/Stream/Keys.antt =====
-- internal/stream/manager.go: only AddClient makes a client known.
use soundswamp.Prelude.{
  ℕ, ◌≡◌, refl, ◌⊎◌, inl, inr, Bool, none, some, List, [], ◌∷◌, arith, Bool-cases, ◌==◌,
  Option-cases,
}
use soundswamp.Prelude.Table.{
  GoString, Table, lookup, string_eq, str_eq, KeysOf, cons-KeysOf, insert_known-KeysOf,
}
use soundswamp.Protocol.Packet.{Error, Result, ok, err}
use soundswamp.Protocol.PacketType
use soundswamp.Protocol.Marshal.{marshal_into, unmarshal}
use soundswamp.Stream.{
  Manager, ClientStream, BroadcastPacket, done, before, send_all, do_send_audio, audio_packet,
  selected, broadcast_step, send_audio, set_channel, set_frame_size, update_address, receive, blank,
}

Result-cases : {A : Type 0} (r : Result A) → ((a : A) × (r ≡ ok a)) ⊎ ((e : Error) × (r ≡ err e))
Result-cases (ok a) = inl (a, refl)
Result-cases (err e) = inr (e, refl)

send_all-KeysOf :
    (pkt : BroadcastPacket) (writes : GoString → Bool) (m : Table GoString ClientStream)
    (buf : List ℕ)
    → KeysOf (send_all pkt writes m buf).0 m
unfolding send_all before
send_all-KeysOf pkt writes [] buf = λ k v h. (v, h)
send_all-KeysOf pkt writes ((id, cs) ∷ m) buf = elim (Bool-cases (selected pkt.channel cs)) [
  | inr skip ↦ rw (skip, send_all) (cons-KeysOf id cs cs _ m (send_all-KeysOf pkt writes m buf))
  | inl hit ↦ elim (Result-cases (marshal_into (audio_packet pkt cs) buf)) [
    | inl ((n, filled), into) ↦
        rw (hit, into, send_all) (cons-KeysOf id _ cs _ m (send_all-KeysOf pkt writes m filled))
    | inr (x, failed) ↦
        rw (hit, failed, send_all) (cons-KeysOf id _ cs _ m (send_all-KeysOf pkt writes m buf))
  ]
]

pub broadcast_step-KeysOf :
    (writes : GoString → Bool) (m m' : Manager) (out : List (GoString × List ℕ))
    → broadcast_step writes m ≡ some (m', out)
    → KeysOf m'.clients m.clients
broadcast_step-KeysOf writes m m' out e = go m.broadcast_chan refl
  where
    go : (q : List BroadcastPacket) → m.broadcast_chan ≡ q → KeysOf m'.clients m.clients
    go [] h =
        let stuck : broadcast_step writes m ≡ none =
          unfold broadcast_step in rw (h, broadcast_step) in
        cc (e, stuck)
    go (pkt ∷ rest) h =
        let same : m'.clients ≡ (send_all pkt writes m.clients m.packet_buf).0 =
          unfold broadcast_step do_send_audio in ground (arith, e, h) in
        rw same (send_all-KeysOf pkt writes m.clients m.packet_buf)

pub send_audio-clients :
    (pkt : BroadcastPacket) (m m' : Manager) → send_audio pkt m ≡ done m' → m'.clients ≡ m.clients
unfolding send_audio
send_audio-clients pkt m m' e = ground arith

pub set_channel-KeysOf :
    (id : GoString) (channel : ℕ) (m : Manager)
    → KeysOf (set_channel id channel m).clients m.clients
set_channel-KeysOf id channel m = elim (Option-cases (lookup id m.clients)) [
  | inl e ↦ unfold set_channel in rw (e, set_channel) (λ k v h. (v, h))
  | inr (cs, e) ↦
      unfold set_channel in
      rw (e, set_channel)
        (insert_known-KeysOf id (record cs { channel_assign = channel }) cs m.clients e)
]

pub set_frame_size-KeysOf :
    (id : GoString) (ms : ℕ) (m : Manager) → KeysOf (set_frame_size id ms m).clients m.clients
set_frame_size-KeysOf id ms m = elim (Option-cases (lookup id m.clients)) [
  | inl e ↦ unfold set_frame_size in rw (e, set_frame_size) (λ k v h. (v, h))
  | inr (cs, e) ↦
      unfold set_frame_size in
      rw (e, set_frame_size) (insert_known-KeysOf id (record cs { frame_size = ms }) cs m.clients e)
]

update_address-KeysOf :
    (id remote : GoString) (m : Manager) → KeysOf (update_address id remote m).clients m.clients
update_address-KeysOf id remote m = elim (Option-cases (lookup id m.clients)) [
  | inl e ↦ unfold update_address in rw (e, update_address) (λ k v h. (v, h))
  | inr (cs, e) ↦ elim (Bool-cases (str_eq cs.addr remote)) [
    | inl same ↦ unfold update_address in rw (e, update_address, same) (λ k v h. (v, h))
    | inr moved ↦
        unfold update_address in
        rw (e, update_address, moved)
          (insert_known-KeysOf id (record cs { addr = remote }) cs m.clients e)
  ]
]

-- A datagram leaves the manager as it is, or moves the address of one client.
pub receive-cases :
    (bytes : List ℕ) (remote : GoString) (m : Manager)
    → (receive bytes remote m ≡ m)
      ⊎ ((id : GoString) × (receive bytes remote m ≡ update_address id remote m))
receive-cases bytes remote m = elim (Option-cases (unmarshal blank bytes).1) [
  | inr (x, e) ↦ inl (unfold receive in rw (e, receive))
  | inl e ↦ elim (Bool-cases ((unmarshal blank bytes).0.type == PacketType.clock_sync_reply)) [
    | inl reply ↦ inl (unfold receive in rw (e, receive, reply))
    | inr other ↦ elim (Bool-cases ((unmarshal blank bytes).0.type == PacketType.keep_alive)) [
      | inl alive ↦
          inr ((unmarshal blank bytes).0.payload, unfold receive in rw (e, receive, other, alive))
      | inr unknown ↦ inl (unfold receive in rw (e, receive, other, unknown))
    ]
  ]
]

pub receive-KeysOf :
    (bytes : List ℕ) (remote : GoString) (m : Manager)
    → KeysOf (receive bytes remote m).clients m.clients
receive-KeysOf bytes remote m = elim (receive-cases bytes remote m) [
  | inl same ↦ rw same (λ k v h. (v, h))
  | inr (id, moved) ↦ rw moved (update_address-KeysOf id remote m)
]
