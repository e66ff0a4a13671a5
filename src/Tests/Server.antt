-- ===== src/Tests/Server.antt =====
-- internal/server: one client that leaves, or whose handshake fails.
use soundswamp.Prelude.{ℕ, ◌≡◌, ◌≢◌, refl, true, false, none, some, List, [], ◌∷◌, arith}
use soundswamp.Prelude.Int.{pos, ◌-ℤ◌, abs}
use soundswamp.Prelude.Table.{GoString, lookup, string_eq, str_eq}
use soundswamp.Prelude.Text.{codes}
use soundswamp.Prelude.Float.{Float, tenths}
use soundswamp.Session.{new_client}
use soundswamp.Clock.{Round, ProbeResult, probe_round, probe_rounds}
use soundswamp.Stream.{ClientStream}
use soundswamp.Server.{Server, dropped, synchronise, disconnect, handle_message, jitter_report}
use soundswamp.Latency.{small_change}
use soundswamp.Server.Fallback.{HasFrameSize, jitter-HasFrameSize}
use soundswamp.Server.Lifecycle.{disconnect_forgets, failed_offset_leaks}

-- One client, with a stream and a clock.
abbrev serving_one : Server tenths
serving_one = record {
  session = record {
    id = codes "S";
    token = codes "t";
    created_at = 0;
    clients = (codes "a", 0) ∷ [];
    heap = λ r. new_client tenths (codes "a") (codes "n") (codes "p") 5 0 0;
    next_ref = 1;
    has_on_join = true;
    has_on_leave = true;
  };
  stream = record {
    clients =
        (
          codes "a",
          record {
            id = codes "a";
            addr = codes "x";
            seq_num = 4;
            channel_assign = 255;
            frame_size = 10;
            active = true;
          },
        )
        ∷ [];
    running = true;
    stopped = false;
    broadcast_chan = [];
    packet_buf = [];
    total_packets_sent = 0;
    total_bytes_sent = 0;
  };
  clock =
      (
        codes "a",
        record { id = codes "a"; offset_us = pos 100; rtt_us = pos 400; last_sync_time = 1 },
      )
      ∷ [];
  latency = record {
    reports = (codes "a", record { p95_ms = pos 420; updated_at = 1 }) ∷ [];
    global_delay = pos 200;
    headroom = pos 200;
    has_broadcaster = true;
    has_frame_setter = true;
    laptop_client_id = [];
    loopback_latency_ms = pos 0;
  };
}

abbrev one_stream : ClientStream
one_stream = record {
  id = codes "a";
  addr = codes "x";
  seq_num = 4;
  channel_assign = 255;
  frame_size = 10;
  active = true;
}

abbrev rounds_met : List Round
rounds_met =
    record {
      sent_at = pos 5000;
      write_ok = true;
      reply = some (pos 4300, pos 4310);
      received_at = pos 5410;
    }
    ∷ []

abbrev exchange : ProbeResult
exchange = record {
  server_send_ts = pos 5000;
  client_recv_ts = pos 4300;
  client_send_ts = pos 4310;
  server_recv_ts = pos 5410;
}

jitter-HasFrameSize_example :
    let f : Float = tenths in
    let id : GoString = codes "a" in
    let ref : ℕ = 0 in
    let now : ℕ = 9 in
    let ms : ℕ = 10 in
    let p95_ms : f.Carrier = pos 100 in
    let s : Server f = serving_one in
    let cs : ClientStream = one_stream in
    (t : Server f) × (handle_message f ref (jitter_report p95_ms now) s ≡ some t)
    × HasFrameSize f id ref cs ms t
unfolding new_client small_change lookup str_eq abs ◌-ℤ◌
jitter-HasFrameSize_example =
    jitter-HasFrameSize tenths (codes "a") 0 9 10 (pos 100) serving_one one_stream refl refl refl
      refl refl refl

failed_offset_leaks_example :
    let f : Float = tenths in
    let ref : ℕ = 0 in
    let id : GoString = codes "a" in
    let rounds : List Round = rounds_met in
    let now : ℕ = 9 in
    let udp_addr : GoString = codes "x" in
    let s : Server f = serving_one in
    ((synchronise f ref rounds now false udp_addr s).1 ≡ dropped)
    × (lookup id (synchronise f ref rounds now false udp_addr s).0.session.clients ≡ none)
    × ((synchronise f ref rounds now false udp_addr s).0.stream ≡ s.stream)
    × (lookup id (synchronise f ref rounds now false udp_addr s).0.clock ≢ none)
unfolding new_client probe_rounds probe_round
failed_offset_leaks_example =
    failed_offset_leaks tenths 0 (codes "a") (codes "b") rounds_met exchange [] 9 (codes "x")
      serving_one refl ((λ h. ground (arith, h))) refl

disconnect_forgets_example :
    let f : Float = tenths in
    let ref : ℕ = 0 in
    let id : GoString = codes "a" in
    let other : GoString = codes "b" in
    let s : Server f = serving_one in
    let s' = disconnect f ref s in
    (lookup id s'.session.clients ≡ none)
    × (lookup id s'.stream.clients ≡ none)
    × (lookup id s'.clock ≡ none)
    × (lookup id s'.latency.reports ≡ none)
    × (lookup other s'.session.clients ≡ lookup other s.session.clients)
    × (lookup other s'.stream.clients ≡ lookup other s.stream.clients)
    × (lookup other s'.clock ≡ lookup other s.clock)
    × (lookup other s'.latency.reports ≡ lookup other s.latency.reports)
unfolding new_client
disconnect_forgets_example =
    disconnect_forgets tenths 0 (codes "a") (codes "b") serving_one refl ((λ h. ground (arith, h)))
