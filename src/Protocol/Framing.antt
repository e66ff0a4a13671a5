-- ===== src/Protocol/Framing.antt =====
-- The framing of TCP control messages: internal/protocol/packet.go (EncodeTCPMessage,
-- DecodeTCPLength) and internal/server/tcp.go (readTCPMessage), which internal/sync/clock.go repeats
-- as tcpRW.ReadMessage.
use soundswamp.Prelude.{
  ℕ, zero, suc, ◌+◌, ◌-◌, ◌⊎◌, inl, inr, length-drop, length-take, ◌%◌, ◌^◌, ◌≤◌, ◌<◌, ◌≡◌, refl,
  Option, none, some, List, [], ◌∷◌, ◌++◌, arith, ltb, ◌==◌, if◌then◌else◌, length, take, drop,
  copy_at, replicate, All, ap, ◌∙◌, length-append, take-append, drop-append, copy-eq-append,
  drop-replicate, append-nil, length-replicate,
}
use soundswamp.Protocol.Bytes.{put_be32, get_be32, get_be32-put}

-- EncodeTCPMessage.
unfoldable pub encode_tcp_message : List ℕ → List ℕ
encode_tcp_message json =
    let msg = replicate (4 + length json) 0 in
    let msg = copy_at 0 msg (put_be32 (length json % 2 ^ 32)) in copy_at 4 msg json

-- DecodeTCPLength; `header[:4]` panics on fewer than four bytes, and every caller passes four.
unfoldable pub decode_tcp_length : List ℕ → Option ℕ
decode_tcp_length header = if ltb (length header) 4 then none else some (get_be32 (take 4 header))

pub data ReadError : Type 0 where
  eof unexpected_eof message_too_large : ReadError

pub data ReadResult {ℓ} (A : Type ℓ) : Type ℓ where
  ok : A → ReadResult A
  err : ReadError → ReadResult A

infixl 5 ◌>>=◌
abbrev pub ◌>>=◌ {ℓ κ} :
    {A : Type ℓ} {B : Type κ} → ReadResult A → (A → ReadResult B) → ReadResult B
ok a >>= f = f a
err e >>= f = err e

-- io.ReadFull on the bytes that a connection delivers until it ends: the bytes, and those after them.
unfoldable pub read_full : ℕ → List ℕ → ReadResult (List ℕ × List ℕ)
read_full n stream =
    if ltb (length stream) n
    then (if length stream == 0 then err eof else err unexpected_eof)
    else ok (take n stream, drop n stream)

abbrev pub max_message_size : ℕ
max_message_size = 65536

read_body : ℕ → List ℕ → ReadResult (List ℕ × List ℕ)
unfolding read_full
read_body msg_len stream =
    if ltb max_message_size msg_len then err message_too_large else read_full msg_len stream

-- readTCPMessage. The four bytes that are read decode to the length.
unfoldable pub read_tcp_message : List ℕ → ReadResult (List ℕ × List ℕ)
unfolding read_full read_body
read_tcp_message stream = do (len_buf, rest) ← read_full 4 stream; read_body (get_be32 len_buf) rest

-- The messages that a loop of readTCPMessage sees, and the error that ends it. Each message takes
-- four bytes at least, so a fuel above the length of the stream is enough.
unfoldable pub read_messages : ℕ → List ℕ → List (List ℕ) × Option ReadError
read_messages zero stream = ([], none)
read_messages (suc fuel) stream = elim (read_tcp_message stream) [
  | err e ↦ ([], some e)
  | ok (msg, rest) ↦ let (msgs, e) = read_messages fuel rest in (msg ∷ msgs, e)
]

pub encode-eq : (json : List ℕ) → encode_tcp_message json ≡ put_be32 (length json % 2 ^ 32) ++ json
unfolding encode_tcp_message
encode-eq json = rw four (
    ap (◌++◌ (put_be32 (length json % 2 ^ 32))) (
      copy-eq-append (replicate (length json) 0) json
        (omega (arith, length-replicate (length json) zero))
      ∙ rw (drop-replicate (length json) (length json) zero, all_gone) (append-nil json)))
  where
    four : 4 + length json ≡ suc (suc (suc (suc (length json))))
    four = omega arith

    all_gone : length json - length json ≡ 0
    all_gone = omega arith

pub length-encode : (json : List ℕ) → length (encode_tcp_message json) ≡ length json + 4
length-encode json = rw encode-eq (omega arith)

read-frame :
    (json rest : List ℕ)
    → length json ≤ max_message_size
    → read_tcp_message ((put_be32 (length json % 2 ^ 32) ++ json) ++ rest) ≡ ok (json, rest)
unfolding read_tcp_message
read-frame json rest h = ground (
  arith,
  get_be32-put (length json % 2 ^ 32) (omega arith),
  length-append json rest,
  take-append json rest,
  drop-append json rest,
)

-- A framed message of at most 65536 bytes is read back whole, and what follows it stays unread.
pub read-encode :
    (json rest : List ℕ)
    → length json ≤ max_message_size
    → read_tcp_message (encode_tcp_message json ++ rest) ≡ ok (json, rest)
read-encode json rest h = rw encode-eq (read-frame json rest h)

-- A message over 65536 bytes is framed without complaint, and the reader gives the connection up.
pub read-encode_large :
    (json rest : List ℕ)
    → max_message_size < length json
    → length json < 2 ^ 32
    → read_tcp_message (encode_tcp_message json ++ rest) ≡ err message_too_large
read-encode_large json rest h k =
    rw encode-eq
      (unfold read_tcp_message in ground (arith, get_be32-put (length json % 2 ^ 32) (omega arith)))

pub read_takes :
    (stream msg rest : List ℕ)
    → read_tcp_message stream ≡ ok (msg, rest)
    → length msg + length rest + 4 ≡ length stream
unfolding read_tcp_message
read_takes stream msg rest e = ground (
  arith,
  length-drop 4 stream,
  length-drop (get_be32 (take 4 stream)) (drop 4 stream),
  length-take (get_be32 (take 4 stream)) (drop 4 stream),
)

abbrev pub frames : List (List ℕ) → List ℕ
frames [] = []
frames (m ∷ ms) = encode_tcp_message m ++ frames ms

ReadResult-cases {ℓ} :
    {A : Type ℓ} (r : ReadResult A) → ((a : A) × (r ≡ ok a)) ⊎ ((e : ReadError) × (r ≡ err e))
ReadResult-cases (ok a) = inl (a, refl)
ReadResult-cases (err e) = inr (e, refl)

-- The read loop on any bytes: with a fuel above their number it ends by an error of the reader, and
-- never because the fuel ran out.
pub read_messages_ends :
    (fuel : ℕ) (stream : List ℕ)
    → length stream < fuel
    → (e : ReadError) × ((read_messages fuel stream).1 ≡ some e)
unfolding read_messages
read_messages_ends zero stream h = absurd (omega arith)
read_messages_ends (suc fuel) stream h = elim (ReadResult-cases (read_tcp_message stream)) [
  | inl ((msg, rest), p) ↦
      rw (p, read_messages)
        (read_messages_ends fuel rest (omega (arith, read_takes stream msg rest p)))
  | inr (e, p) ↦ rw (p, read_messages) (e, refl)
]

abbrev pub Fits : List (List ℕ) → Type 0
Fits = All (λ m. length m ≤ max_message_size)

-- The read loop recovers exactly the messages that were framed, in their order, and then sees the
-- end of the stream as a clean EOF: for messages of at most 65536 bytes each and a fuel above the
-- number of bytes.
pub read_messages-frames :
    (ms : List (List ℕ)) (fuel : ℕ)
    → Fits ms
    → length (frames ms) < fuel
    → read_messages fuel (frames ms) ≡ (ms, some eof)
unfolding read_messages
read_messages-frames ms zero h k = absurd (omega arith)
read_messages-frames [] (suc fuel) h k = unfold read_tcp_message in refl
read_messages-frames (m ∷ ms) (suc fuel) h k =
    rw (read-encode m (frames ms) h.0, read_messages)
      (rw (
        read_messages-frames ms fuel h.1
          (omega (arith, length-append (encode_tcp_message m) (frames ms), length-encode m))))
