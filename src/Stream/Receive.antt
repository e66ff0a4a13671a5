-- ===== src/Stream/Receive.antt =====
-- internal/stream/manager.go: keep-alives and clock probes over UDP.
use soundswamp.Prelude.{
  ℕ, ◌≤◌, ◌≡◌, ◌≢◌, refl, ap, ◌∙◌, sym, ◌⊎◌, inl, inr, none, some, List, [], arith, length,
  Bool-cases, Option-cases, append-nil,
}
use soundswamp.Prelude.Int.{ℤ, IsI64}
use soundswamp.Prelude.Table.{
  GoString, lookup, string_eq, str_eq, str_eq_iff, lookup-insert_self, lookup-insert_ne,
}
use soundswamp.Protocol.PacketType
use soundswamp.Protocol.Packet.{
  Packet, IsPacket, ok, protocol_version, max_payload_size, header_size,
}
use soundswamp.Protocol.Marshal.{marshal, unmarshal}
use soundswamp.Protocol.RoundTrip.{unmarshal-marshal}
use soundswamp.Stream.{Manager, ClientStream, blank, update_address, receive, send_clock_sync_probe}

update_address_lem :
    (id remote : GoString) (m : Manager) (cs : ClientStream)
    → lookup id m.clients ≡ some cs
    → (lookup id (update_address id remote m).clients ≡ some (record cs { addr = remote }))
update_address_lem id remote m cs known = elim (Bool-cases (str_eq cs.addr remote)) [
  | inl same ↦
      unfold update_address in
      rw (known, update_address, same)
        (known ∙ ap (λ a. some (record cs { addr = a })) ((str_eq_iff cs.addr remote).0 same))
  | inr moved ↦
      unfold update_address in
      rw (known, update_address, moved)
        (lookup-insert_self id (record cs { addr = remote }) m.clients)
]

update_address_other :
    (id other remote : GoString) (m : Manager)
    → id ≢ other
    → lookup other (update_address id remote m).clients ≡ lookup other m.clients
update_address_other id other remote m ne = elim (Option-cases (lookup id m.clients)) [
  | inl e ↦ unfold update_address in rw (e, update_address)
  | inr (cs, e) ↦ elim (Bool-cases (str_eq cs.addr remote)) [
    | inl same ↦ unfold update_address in rw (e, update_address, same)
    | inr moved ↦
        unfold update_address in
        rw (e, update_address, moved)
          (lookup-insert_ne id other (record cs { addr = remote }) m.clients ne)
  ]
]

-- A keep-alive that a client marshals, with its identifier as payload, makes the server send to the
-- address that it came from from then on: of that client only the address changes, and the clients with
-- other identifiers stay as they are.
pub keep_alive_moves :
    (p : Packet) (bytes : List ℕ) (other remote : GoString) (m : Manager) (cs : ClientStream)
    → IsPacket p
    → p.version ≡ protocol_version
    → p.type ≡ PacketType.keep_alive
    → length p.payload ≤ max_payload_size
    → marshal p ≡ ok bytes
    → lookup p.payload m.clients ≡ some cs
    → p.payload ≢ other
    → (lookup p.payload (receive bytes remote m).clients ≡ some (record cs { addr = remote }))
      × (lookup other (receive bytes remote m).clients ≡ lookup other m.clients)
keep_alive_moves p bytes other remote m cs v version keep fits made known ne =
    let (b, again, _, decoded) = unmarshal-marshal p blank [] v version fits in
    let same : b ≡ bytes = cc in
    let read : unmarshal blank bytes ≡ (p, none) =
      ap (unmarshal blank) (sym same ∙ sym (append-nil b)) ∙ decoded in
    let moved : receive bytes remote m ≡ update_address p.payload remote m =
      unfold receive in rw (read, receive) (ground arith) in
    (
      ap (λ s. lookup p.payload s.clients) moved ∙ update_address_lem p.payload remote m cs known,
      ap (λ s. lookup other s.clients) moved ∙ update_address_other p.payload other remote m ne,
    )

-- A datagram that Unmarshal refuses, or that is no keep-alive, changes nothing.
pub receive_ignores :
    (bytes : List ℕ) (remote : GoString) (m : Manager)
    → ((unmarshal blank bytes).1 ≢ none) ⊎ ((unmarshal blank bytes).0.type ≢ PacketType.keep_alive)
    → receive bytes remote m ≡ m
unfolding receive
receive_ignores bytes remote m (inl refused) = ground arith
receive_ignores bytes remote m (inr other) = ground arith

-- For a known client and a time that is an int64, a clock probe goes to the client's address, and
-- Unmarshal reads from it a probe with that time.
pub clock_probe_decodes :
    (id : GoString) (now : ℤ) (m : Manager) (cs : ClientStream) (q : Packet)
    → IsI64 now
    → lookup id m.clients ≡ some cs
    → (bytes : List ℕ) × (p : Packet) × (send_clock_sync_probe id now m ≡ some (cs.addr, bytes))
      × (length bytes ≡ header_size)
      × (unmarshal q bytes ≡ (p, none))
      × (p.type ≡ PacketType.clock_sync_probe)
      × (p.timestamp_us ≡ now)
clock_probe_decodes id now m cs q fits known =
    let (b, made, size, decoded) = unmarshal-marshal probe q [] valid refl (omega arith) in
    (
      b,
      probe,
      unfold send_clock_sync_probe in rw (known, send_clock_sync_probe, made),
      size ∙ omega arith,
      ap (unmarshal q) (sym (append-nil b)) ∙ decoded,
      refl,
      refl,
    )
  where
    probe : Packet
    probe = record {
      version = protocol_version;
      type = PacketType.clock_sync_probe;
      seq_num = 0;
      timestamp_us = now;
      channel_mask = 0;
      codec = 0;
      payload = [];
    }

    valid : IsPacket probe
    valid = record {
      version_byte = omega arith;
      type_byte = omega arith;
      seq_num_u32 = omega arith;
      timestamp_i64 = fits;
      channel_byte = omega arith;
      codec_byte = omega arith;
      payload_bytes = tt;
    }
