-- ===== src/Protocol/RoundTrip.antt =====
-- internal/protocol/packet.go: what Marshal writes, Unmarshal reads, and the reverse.
use mathlib.Core.Path.{subst, ap₂}
use native.Mathlib.Decide.{dec_lt, ℕ_discrete}
use soundswamp.Prelude.{
  ℕ, ◌+◌, ◌-◌, ◌*◌, ◌%◌, ◌^◌, ◌≤◌, ◌<◌, ◌≡◌, sym, ap, ◌∙◌, none, some, List, [], ◌∷◌, ◌++◌, ◌⊎◌,
  inl, inr, get_or, arith, length, take, drop, replicate, copy-eq-append, drop-replicate,
  length-append, take-append, All-take, All-drop, length-take, take-append-drop, length-replicate,
  append-nil,
}
use soundswamp.Prelude.Int.{to_u64, of_u64, of_u64-to_u64, of_u64-IsI64, to_u64-of_u64, to_u64-lt}
use soundswamp.Protocol.Bytes.{
  IsByte, IsBytes, put_be16, put_be32, put_be64, get_be16, get_be32, get_be64, get_be16-put,
  get_be32-put, get_be64-put, put_be64-get,
}
use soundswamp.Protocol.Packet.{
  Packet, IsPacket, Error, packet_too_short, bad_version, payload_too_large, payload_mismatch,
  buffer_too_small, ok, err, protocol_version, header_size, max_payload_size,
}
use soundswamp.Protocol.Marshal.{write_packet, marshal, marshal_into, unmarshal}

-- The eighteen header bytes of a packet.
abbrev header : Packet → List ℕ
header p =
    p.version ∷ p.type ∷ []
    ++ put_be32 p.seq_num
    ++ put_be64 (to_u64 p.timestamp_us)
    ++ p.channel_mask ∷ p.codec ∷ []
    ++ put_be16 (length p.payload % 2 ^ 16)

abbrev wire : Packet → List ℕ
wire p = header p ++ p.payload

write_packet-wire :
    (p : Packet) (buf : List ℕ)
    → length (wire p) ≤ length buf
    → write_packet p buf ≡ wire p ++ drop (length (wire p)) buf
unfolding write_packet
write_packet-wire p
      (b0 ∷ b1 ∷ b2 ∷ b3 ∷ b4 ∷ b5 ∷ b6 ∷ b7 ∷ b8 ∷ b9 ∷ b10 ∷ b11 ∷ b12 ∷ b13 ∷ b14 ∷ b15 ∷ b16
        ∷ b17 ∷ rest)
      h =
    ap (◌++◌ (header p)) (copy-eq-append rest p.payload (omega arith))
write_packet-wire p _ h = absurd (omega arith)

length-wire : (p : Packet) → length (wire p) ≡ header_size + length p.payload
length-wire p = omega arith

-- The packet is written whole at the front of the buffer, and what lies behind it stays.
marshal_into-wire :
    (p : Packet) (buf : List ℕ)
    → length p.payload ≤ max_payload_size
    → header_size + length p.payload ≤ length buf
    → marshal_into p buf ≡ ok (header_size + length p.payload, wire p ++ drop (length (wire p)) buf)
unfolding marshal_into
marshal_into-wire p buf hp hb =
    ground (arith, write_packet-wire p buf (omega (arith, length-wire p)))

marshal-wire : (p : Packet) → length p.payload ≤ max_payload_size → marshal p ≡ ok (wire p)
unfolding marshal
marshal-wire p hp = ground (arith, written)
  where
    zeros : List ℕ
    zeros = replicate (header_size + length p.payload) 0

    size : length (wire p) ≡ length zeros
    size = omega (arith, length-wire p, length-replicate {A = ℕ} (header_size + length p.payload) 0)

    no_room : (k : ℕ) → k ≡ 0 → replicate {A = ℕ} k 0 ≡ []
    no_room k e = rw e

    none_left : drop (length (wire p)) zeros ≡ []
    none_left =
        drop-replicate (length (wire p)) (header_size + length p.payload) 0
        ∙ no_room (header_size + length p.payload - length (wire p)) (omega (arith, length-wire p))

    written : write_packet p zeros ≡ wire p
    written = write_packet-wire p zeros (omega (arith, size)) ∙ rw none_left (append-nil (wire p))

-- Unmarshal reads the fields back, whatever follows the packet in the datagram.
unmarshal-wire :
    (p q : Packet) (trailing : List ℕ)
    → IsPacket p
    → p.version ≡ protocol_version
    → length p.payload ≤ max_payload_size
    → unmarshal q (wire p ++ trailing) ≡ (p, none)
unfolding unmarshal
unmarshal-wire p q trailing v hv hp = ground (
  arith,
  get_be16-put (length p.payload % 2 ^ 16) (omega arith),
  get_be32-put p.seq_num v.seq_num_u32,
  get_be64-put (to_u64 p.timestamp_us) (to_u64-lt p.timestamp_us),
  of_u64-to_u64 p.timestamp_us v.timestamp_i64,
  length-append p.payload trailing,
  take-append p.payload trailing,
)

-- Decoding inverts encoding, with any bytes after the packet: a packet of the current version, with
-- fields in the ranges of their types and a payload of at most 4096 bytes, is marshalled to exactly
-- 18 bytes and its payload, and Unmarshal gives the packet back into any receiver.
pub unmarshal-marshal :
    (p q : Packet) (trailing : List ℕ)
    → IsPacket p
    → p.version ≡ protocol_version
    → length p.payload ≤ max_payload_size
    → (b : List ℕ) × (marshal p ≡ ok b)
      × (length b ≡ header_size + length p.payload)
      × (unmarshal q (b ++ trailing) ≡ (p, none))
unmarshal-marshal p q trailing v hv hp =
    (wire p, marshal-wire p hp, length-wire p, unmarshal-wire p q trailing v hv hp)

-- MarshalInto agrees with Marshal on every input: a buffer that is too short is refused; then a
-- payload over 4096 bytes is refused by both; else Marshal's bytes stand at the front of the buffer,
-- their number is returned, and the rest of the buffer is unchanged.
pub marshal_into-marshal :
    (p : Packet) (buf : List ℕ)
    → ((length buf < header_size + length p.payload) × (marshal_into p buf ≡ err buffer_too_small))
      ⊎ ((header_size + length p.payload ≤ length buf)
          × (max_payload_size < length p.payload)
          × (marshal_into p buf ≡ err payload_too_large)
          × (marshal p ≡ err payload_too_large))
      ⊎ ((b : List ℕ) × (header_size + length p.payload ≤ length buf)
          × (marshal p ≡ ok b)
          × (marshal_into p buf ≡ ok (length b, b ++ drop (length b) buf)))
marshal_into-marshal p buf = elim (dec_lt (length buf) (header_size + length p.payload)) [
  | yes short ↦ inl (short, unfold marshal_into in ground arith)
  | no fits ↦ elim (dec_lt max_payload_size (length p.payload)) [
    | yes large ↦ inr (
        inl
          (omega arith, large, unfold marshal_into in ground arith, unfold marshal in ground arith))
    | no small ↦ inr (
        inr (
          wire p,
          omega arith,
          marshal-wire p (omega arith),
          marshal_into-wire p buf (omega arith) (omega arith)
              ∙ ap (λ n. ok (n, wire p ++ drop (length (wire p)) buf)) (sym (length-wire p)),
        ))
  ]
]

-- What Unmarshal accepts: at least 18 bytes, version 1, and a declared payload that is at most 4096
-- bytes and is all there.
abbrev pub WellFormed : List ℕ → Type 0
WellFormed b =
    (header_size ≤ length b)
    × (get_or b 0 0 ≡ protocol_version)
    × (get_be16 (take 2 (drop 16 b)) ≤ max_payload_size)
    × (header_size + get_be16 (take 2 (drop 16 b)) ≤ length b)

-- The packet that the bytes of a well-formed datagram spell.
abbrev pub decoded : List ℕ → Packet
decoded b = record {
  version = get_or b 0 0;
  type = get_or b 1 0;
  seq_num = get_be32 (take 4 (drop 2 b));
  timestamp_us = of_u64 (get_be64 (take 8 (drop 6 b)));
  channel_mask = get_or b 14 0;
  codec = get_or b 15 0;
  payload = take (get_be16 (take 2 (drop 16 b))) (drop header_size b);
}

-- Unmarshal on any datagram: a well-formed one gives the packet that its bytes spell and no error;
-- one that is not gives an error and leaves the receiver as it was.
pub unmarshal_accepts :
    (q : Packet) (b : List ℕ)
    → (WellFormed b × (unmarshal q b ≡ (decoded b, none)))
      ⊎ ((e : Error) × (¬ WellFormed b) × (unmarshal q b ≡ (q, some e)))
unmarshal_accepts q b = elim (dec_lt (length b) header_size) [
  | yes short ↦ inr (packet_too_short, (λ w. omega arith), unfold unmarshal in ground arith)
  | no long ↦ elim (ℕ_discrete (get_or b 0 0) protocol_version) [
    | no other ↦ inr (bad_version, (λ w. other w.1), unfold unmarshal in ground arith)
    | yes same ↦ elim (dec_lt max_payload_size (get_be16 (take 2 (drop 16 b)))) [
      | yes large ↦ inr (payload_too_large, (λ w. omega arith), unfold unmarshal in ground arith)
      | no small ↦ elim (dec_lt (length b) (header_size + get_be16 (take 2 (drop 16 b)))) [
        | yes cut ↦ inr (payload_mismatch, (λ w. omega arith), unfold unmarshal in ground arith)
        | no whole ↦
            inl ((omega arith, same, omega arith, omega arith), unfold unmarshal in ground arith)
      ]
    ]
  ]
]

unmarshal-decoded :
    (q p : Packet) (b : List ℕ) → unmarshal q b ≡ (p, none) → (decoded b ≡ p) × WellFormed b
unfolding unmarshal
unmarshal-decoded q p b h = ground arith

decoded-IsPacket : (b : List ℕ) → IsBytes b → header_size ≤ length b → IsPacket (decoded b)
decoded-IsPacket
      (b0 ∷ b1 ∷ b2 ∷ b3 ∷ b4 ∷ b5 ∷ b6 ∷ b7 ∷ b8 ∷ b9 ∷ b10 ∷ b11 ∷ b12 ∷ b13 ∷ b14 ∷ b15 ∷ b16
        ∷ b17 ∷ rest)
      h hl =
    record {
      version_byte = omega arith;
      type_byte = omega arith;
      seq_num_u32 = omega arith;
      timestamp_i64 = of_u64-IsI64 _ (omega arith);
      channel_byte = omega arith;
      codec_byte = omega arith;
      payload_bytes = All-take IsByte (b16 * 2 ^ 8 + b17) rest (
          All-drop IsByte 18
            (b0 ∷ b1 ∷ b2 ∷ b3 ∷ b4 ∷ b5 ∷ b6 ∷ b7 ∷ b8 ∷ b9 ∷ b10 ∷ b11 ∷ b12 ∷ b13 ∷ b14 ∷ b15
              ∷ b16 ∷ b17 ∷ rest)
            h);
    }
decoded-IsPacket _ h hl = absurd (omega arith)

wire-decoded :
    (b : List ℕ)
    → IsBytes b
    → WellFormed b
    → wire (decoded b) ++ drop (get_be16 (take 2 (drop 16 b))) (drop header_size b) ≡ b
wire-decoded
      (b0 ∷ b1 ∷ b2 ∷ b3 ∷ b4 ∷ b5 ∷ b6 ∷ b7 ∷ b8 ∷ b9 ∷ b10 ∷ b11 ∷ b12 ∷ b13 ∷ b14 ∷ b15 ∷ b16
        ∷ b17 ∷ rest)
      h w =
    ground (
      arith,
      put_be64-get b6 b7 b8 b9 b10 b11 b12 b13 (omega arith),
      to_u64-of_u64 (get_be64 (b6 ∷ b7 ∷ b8 ∷ b9 ∷ b10 ∷ b11 ∷ b12 ∷ b13 ∷ [])) (omega arith),
      length-take (b16 * 2 ^ 8 + b17) rest,
      take-append-drop (b16 * 2 ^ 8 + b17) rest,
    )
wire-decoded _ h w = absurd (omega arith)

length-decoded : (b : List ℕ) → length (decoded b).payload ≤ get_be16 (take 2 (drop 16 b))
length-decoded b = omega (arith, length-take (get_be16 (take 2 (drop 16 b))) (drop header_size b))

marshal-decoded :
    (b : List ℕ)
    → IsBytes b
    → WellFormed b
    → marshal (decoded b) ≡ ok (take (header_size + length (decoded b).payload) b)
marshal-decoded b h w =
    marshal-wire (decoded b) (omega (arith, length-decoded b))
    ∙ ap ok (
        sym (take-append (wire (decoded b)) _)
        ∙ ap₂ (λ (n : ℕ) (l : List ℕ). take n l) (length-wire (decoded b)) (wire-decoded b h w))

-- Encoding inverts decoding: when Unmarshal accepts a datagram of bytes, the packet that it gives has
-- fields in the ranges of their types, and Marshal writes that packet as the first bytes of the
-- datagram, header and declared payload.
pub marshal-unmarshal :
    (p q : Packet) (b : List ℕ)
    → IsBytes b
    → unmarshal q b ≡ (p, none)
    → IsPacket p × (marshal p ≡ ok (take (header_size + length p.payload) b))
marshal-unmarshal p q b h e =
    let (same, w) = unmarshal-decoded q p b e in
    subst (λ r. IsPacket r × (marshal r ≡ ok (take (header_size + length r.payload) b))) same
      (decoded-IsPacket b h w.0, marshal-decoded b h w)
