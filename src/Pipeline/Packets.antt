-- ===== src/Pipeline/Packets.antt =====
-- cmd/soundswarm-server/main.go: what one round of runAudioPipeline puts into the stream manager's queue.
use native.Mathlib.Decide.{dec_lt}
use soundswamp.Prelude.{
  ℕ, zero, suc, ◌*◌, ◌≤◌, ◌<◌, ◌≡◌, refl, sym, ap, ◌∙◌, true, List, [], ◌∷◌, ◌++◌, arith, length,
  take, All, length-append, length-take, append_assoc, append-nil,
}
use soundswamp.Prelude.Int.{ℤ}
use soundswamp.Protocol.CodecFlag.{pcm}
use soundswamp.Surround.{roomy}
use soundswamp.Surround.Rows.{row_length}
use soundswamp.Codec.{Sample, Encoder, encode, encode_samples}
use soundswamp.Codec.Frames.{length-encode_samples}
use soundswamp.Stream.{Manager, BroadcastPacket, done, queue_capacity, send_audio}
use soundswamp.Pipeline.{encode_and_send, send_channels}

-- Buffers of the same length, as many as channels.
pub record Shape {A : Type 0} (n p : ℕ) (bufs : List (List A)) : Type 0 where
  pub count : length bufs ≡ n
  pub rows : All (λ row. length row ≡ p) bufs

module _ {A : Type 0} where
  pub rows-roomy :
      (n p : ℕ) (bufs : List (List A))
      → n ≤ length bufs
      → All (λ row. length row ≡ p) bufs
      → roomy n p bufs ≡ true
  unfolding roomy
  rows-roomy zero p bufs h v = refl
  rows-roomy (suc n) p [] h v = absurd (omega arith)
  rows-roomy (suc n) p (row ∷ rows) h v = ground (arith, v.0, rows-roomy n p rows (omega arith) v.1)

  pub rows-row_length :
      (p c : ℕ) (bufs : List (List A))
      → All (λ row. length row ≡ p) bufs
      → c < length bufs
      → row_length bufs c ≡ p
  rows-row_length p c [] h k = absurd (omega arith)
  rows-row_length p zero (row ∷ rows) h k = h.0
  rows-row_length p (suc c) (row ∷ rows) h k = rows-row_length p c rows h.1 (omega arith)

  pub row_length-rows :
      (p : ℕ) (bufs : List (List A))
      → ((c : ℕ) → c < length bufs → row_length bufs c ≡ p)
      → All (λ row. length row ≡ p) bufs
  row_length-rows p [] h = tt
  row_length-rows p (row ∷ rows) h =
      (h 0 (omega arith), row_length-rows p rows (λ c k. h (suc c) (omega arith)))

  take-take-append : (n : ℕ) (xs zs : List A) → take n (take n xs ++ zs) ≡ take n (xs ++ zs)
  take-take-append zero xs zs = refl
  take-take-append (suc n) [] zs = refl
  take-take-append (suc n) (x ∷ xs) zs = ap (λ t. x ∷ t) (take-take-append n xs zs)

  pub take-all : (n : ℕ) (xs : List A) → length xs ≤ n → take n xs ≡ xs
  take-all zero [] h = refl
  take-all zero (x ∷ xs) h = absurd (omega arith)
  take-all (suc n) [] h = refl
  take-all (suc n) (x ∷ xs) h = ap (λ t. x ∷ t) (take-all n xs (omega arith))

  take-append_full : (n : ℕ) (xs ys : List A) → length xs ≡ n → take n (xs ++ ys) ≡ xs
  take-append_full zero [] ys h = refl
  take-append_full zero (x ∷ xs) ys h = absurd (omega arith)
  take-append_full (suc n) [] ys h = absurd (omega arith)
  take-append_full (suc n) (x ∷ xs) ys h = ap (λ t. x ∷ t) (take-append_full n xs ys (omega arith))

-- A manager with frames at the end of its queue, as far as there is room.
abbrev pub queued : List BroadcastPacket → Manager → Manager
queued pkts m = record m { broadcast_chan = take queue_capacity (m.broadcast_chan ++ pkts) }

send_audio-queued :
    (pkt : BroadcastPacket) (m : Manager)
    → length pkt.opus_data ≤ 4096
    → length m.broadcast_chan ≤ queue_capacity
    → send_audio pkt m ≡ done (queued (pkt ∷ []) m)
send_audio-queued pkt m small h = elim (dec_lt (length m.broadcast_chan) queue_capacity) [
  | yes room ↦
      let taken : send_audio pkt m
          ≡ done (record m { broadcast_chan = m.broadcast_chan ++ (pkt ∷ []) }) =
        unfold send_audio in ground arith in
      taken
      ∙ ap (λ c. done (record m { broadcast_chan = c }))
          (sym (
            take-all queue_capacity (m.broadcast_chan ++ (pkt ∷ []))
              (omega (arith, length-append m.broadcast_chan (pkt ∷ [])))))
  | no full ↦
      let dropped : send_audio pkt m ≡ done m = unfold send_audio in ground arith in
      dropped
      ∙ ap (λ c. done (record m { broadcast_chan = c }))
          (sym (take-append_full queue_capacity m.broadcast_chan (pkt ∷ []) (omega arith)))
]

pub queued_room :
    (pkts : List BroadcastPacket) (m : Manager)
    → length (queued pkts m).broadcast_chan ≤ queue_capacity
queued_room pkts m = omega (arith, length-take queue_capacity (m.broadcast_chan ++ pkts))

queued-queued :
    (ps qs : List BroadcastPacket) (m : Manager) → queued qs (queued ps m) ≡ queued (ps ++ qs) m
queued-queued ps qs m =
    ap (λ c. record m { broadcast_chan = c })
      (take-take-append queue_capacity (m.broadcast_chan ++ ps) qs
        ∙ ap (λ x. take queue_capacity x) (append_assoc m.broadcast_chan ps qs))

-- An encoder of 10 ms, for so many channels.
pub record IsShort (channels : ℕ) (e : Encoder) : Type 0 where
  pub samples : e.frame_samples ≡ 480
  pub width : e.config.channels ≡ channels

module _ (f : Sample) where
  -- The packet of a frame of samples.
  abbrev pub sample_packet : List f.Carrier → ℕ → ℤ → BroadcastPacket
  sample_packet buf channel ts = record {
    opus_data = encode_samples f buf;
    channel = channel;
    capture_timestamp = ts;
    codec_flag = pcm;
  }

  -- One packet for each channel's buffer, in order.
  abbrev pub channel_packets : List (List f.Carrier) → List ℕ → ℤ → List BroadcastPacket
  channel_packets [] mapping ts = []
  channel_packets (buf ∷ bufs) [] ts = []
  channel_packets (buf ∷ bufs) (ch ∷ mapping) ts =
      sample_packet buf ch ts ∷ channel_packets bufs mapping ts

  pub encode_and_send-queued :
      (channels : ℕ) (e : Encoder) (buf : List f.Carrier) (ch : ℕ) (ts : ℤ) (m : Manager)
      → IsShort channels e
      → length buf ≡ 480 * channels
      → channels ≤ 2
      → length m.broadcast_chan ≤ queue_capacity
      → encode_and_send f e buf ch ts m ≡ done (queued (sample_packet buf ch ts ∷ []) m)
  unfolding encode_and_send encode
  encode_and_send-queued channels e buf ch ts m v k few h = ground (
    arith,
    v.samples,
    v.width,
    send_audio-queued (sample_packet buf ch ts) m (omega (arith, length-encode_samples f buf)) h,
  )

  pub send_channels-queued :
      (es : List Encoder) (mapping : List ℕ) (bufs : List (List f.Carrier)) (ts : ℤ) (m : Manager)
      → All (IsShort 1) es
      → All (λ row. length row ≡ 480) bufs
      → length bufs ≤ length es
      → length bufs ≤ length mapping
      → length m.broadcast_chan ≤ queue_capacity
      → send_channels f es mapping bufs ts m ≡ done (queued (channel_packets bufs mapping ts) m)
  unfolding send_channels
  send_channels-queued es mapping [] ts m v rows k l h =
      ap (λ c. done (record m { broadcast_chan = c }))
        (sym (
          ap (λ x. take queue_capacity x) (append-nil m.broadcast_chan)
          ∙ take-all queue_capacity m.broadcast_chan h))
  send_channels-queued [] mapping (buf ∷ bufs) ts m v rows k l h = absurd (omega arith)
  send_channels-queued (e ∷ es) [] (buf ∷ bufs) ts m v rows k l h = absurd (omega arith)
  send_channels-queued (e ∷ es) (ch ∷ mapping) (buf ∷ bufs) ts m v rows k l h =
      let first =
        encode_and_send-queued 1 e buf ch ts m v.0 (omega (arith, rows.0)) (omega arith) h in
      let mid = queued (sample_packet buf ch ts ∷ []) m in
      let rest =
        send_channels-queued es mapping bufs ts mid v.1 rows.1 (omega arith) (omega arith)
          (queued_room (sample_packet buf ch ts ∷ []) m) in
      rw (first, send_channels)
        (rest
          ∙ ap done
              (queued-queued (sample_packet buf ch ts ∷ []) (channel_packets bufs mapping ts) m))
