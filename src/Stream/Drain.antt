-- ===== src/Stream/Drain.antt =====
-- internal/stream/manager.go: the sender empties its queue.
use mathlib.Core.Path.{subst}
use soundswamp.Prelude.{
  ℕ, ◌+◌, ◌≡◌, refl, ap, ◌∙◌, Bool, none, some, List, [], ◌∷◌, ◌++◌, arith, length, All,
  length-append,
}
use soundswamp.Prelude.Table.{GoString, Table}
use soundswamp.Protocol.Packet.{Packet, max_packet_size}
use soundswamp.Protocol.Marshal.{unmarshal}
use soundswamp.Stream.{Manager, ClientStream, BroadcastPacket, do_send_audio, broadcast_step}
use soundswamp.Stream.Queue.{broadcast_step_fifo}
use soundswamp.Stream.Send.{IsFrame, planned, advanced, Delivered, do_send_audio_lem}

-- Rounds of broadcastLoop, one for each answer of the socket, and the datagrams that go out in them.
unfoldable pub drain : List (GoString → Bool) → Manager → Manager × List (GoString × List ℕ)
drain [] m = (m, [])
drain (writes ∷ ws) m = elim (broadcast_step writes m) [
  | none ↦ drain ws m
  | some (m', out) ↦ let (m2, outs) = drain ws m' in (m2, out ++ outs)
]

-- What the rounds mean to deliver: the packets of each frame in turn, each client's sequence number going
-- on from frame to frame.
abbrev pub planned_all :
    List BroadcastPacket
    → List (GoString → Bool)
    → Table GoString ClientStream
    → List (GoString × Packet)
planned_all [] ws m = []
planned_all (pkt ∷ q) [] m = []
planned_all (pkt ∷ q) (writes ∷ ws) m = planned pkt writes m ++ planned_all q ws (advanced pkt m)

abbrev pub advanced_all :
    List BroadcastPacket → Table GoString ClientStream → Table GoString ClientStream
advanced_all [] m = m
advanced_all (pkt ∷ q) m = advanced_all q (advanced pkt m)

-- Datagram by datagram, Unmarshal reads the packet from the bytes, at the address meant for it.
abbrev pub Arrives : Packet → List (GoString × List ℕ) → List (GoString × Packet) → Type 0
Arrives q [] [] = Unit {0}
Arrives q [] (x ∷ xs) = ⊥
Arrives q (y ∷ ys) [] = ⊥
Arrives q ((a, bytes) ∷ out) ((a', p) ∷ plan) =
    (a ≡ a') × (unmarshal q bytes ≡ (p, none)) × Arrives q out plan

Delivered-Arrives :
    (q : Packet) (size : ℕ) (out : List (GoString × List ℕ)) (plan : List (GoString × Packet))
    → Delivered q size out plan
    → Arrives q out plan
Delivered-Arrives q size [] [] d = tt
Delivered-Arrives q size [] (x ∷ xs) d = absurd d
Delivered-Arrives q size (y ∷ ys) [] d = absurd d
Delivered-Arrives q size ((a, bytes) ∷ out) ((a', p) ∷ plan) d =
    (d.0, d.2, Delivered-Arrives q size out plan d.3)

Arrives-append :
    (q : Packet) (out outs : List (GoString × List ℕ)) (plan plans : List (GoString × Packet))
    → Arrives q out plan
    → Arrives q outs plans
    → Arrives q (out ++ outs) (plan ++ plans)
Arrives-append q [] outs [] plans a b = b
Arrives-append q [] outs (x ∷ xs) plans a b = absurd a
Arrives-append q (y ∷ ys) outs [] plans a b = absurd a
Arrives-append q ((x, bytes) ∷ out) outs ((x', p) ∷ plan) plans a b =
    (a.0, a.1, Arrives-append q out outs plan plans a.2 b)

-- After as many rounds of the sender as frames wait, whatever the socket answers, none waits any more. The
-- datagrams that went out are, in the frames' order, one for each client that hears the frame and whose
-- write succeeds, and Unmarshal reads from each an audio packet with the client's next sequence number and
-- the frame's time, channel, codec and bytes; each client's sequence number has gone on by the frames that
-- it hears; and the counter of packets has grown by the number of the datagrams.
pub sender_drains :
    (ws : List (GoString → Bool)) (frames : List BroadcastPacket) (m : Manager) (q : Packet)
    → m.broadcast_chan ≡ frames
    → All IsFrame frames
    → length m.packet_buf ≡ max_packet_size
    → length ws ≡ length frames
    → ((drain ws m).0.broadcast_chan ≡ [])
      × Arrives q (drain ws m).1 (planned_all frames ws m.clients)
      × ((drain ws m).0.clients ≡ advanced_all frames m.clients)
      × ((drain ws m).0.total_packets_sent
          ≡ m.total_packets_sent + length (planned_all frames ws m.clients))
unfolding drain
sender_drains [] [] m q e v size k = (e, tt, refl, omega arith)
sender_drains [] (pkt ∷ frames) m q e v size k = absurd (omega arith)
sender_drains (writes ∷ ws) [] m q e v size k = absurd (omega arith)
sender_drains (writes ∷ ws) (pkt ∷ frames) m q e v size k =
    let (taken, left) = broadcast_step_fifo writes m pkt frames e in
    let before : Manager = record m { broadcast_chan = frames } in
    let m' = (do_send_audio pkt writes before).0 in
    let out = (do_send_audio pkt writes before).1 in
    let (clients, sent, packets, _, size') =
      do_send_audio_lem pkt writes before m' q out v.0 size refl in
    let (empty, arrives, state, total) =
      sender_drains ws frames m' q left v.1 size' (omega arith) in
    rw (taken, drain)
      (
        empty,
        Arrives-append q out (drain ws m').1 (planned pkt writes m.clients)
            (planned_all frames ws (advanced pkt m.clients))
            (Delivered-Arrives q _ out (planned pkt writes m.clients) sent)
            (subst (λ c. Arrives q (drain ws m').1 (planned_all frames ws c)) clients arrives),
        state ∙ ap (λ c. advanced_all frames c) clients,
        total
            ∙ omega (
              arith,
              packets,
              ap (λ c. length (planned_all frames ws c)) clients,
              length-append (planned pkt writes m.clients)
                  (planned_all frames ws (advanced pkt m.clients)),
            ),
      )
