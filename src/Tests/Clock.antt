-- ===== src/Tests/Clock.antt =====
-- internal/sync/clock.go: two probes of a client whose clock is behind.
use soundswamp.Prelude.{
  ℕ, ◌+◌, ◌*◌, ◌≤◌, ◌≡◌, refl, Bool, true, false, some, List, [], ◌∷◌, arith, if◌then◌else◌,
}
use soundswamp.Prelude.Int.{ℤ, pos, ◌+ℤ◌, ◌-ℤ◌, abs}
use soundswamp.Prelude.Table.{GoString, lookup, string_eq}
use soundswamp.Prelude.Text.{codes}
use soundswamp.Clock.{
  ProbeResult, ClientClock, ClockSync, Round, ok, err, send_offset, rtt, offset, probe_round,
  probe_rounds, initial_handshake,
}
use soundswamp.Clock.Probe.{Exchange, offset_error}
use soundswamp.Clock.Handshake.{Settled, handshake_stores}

-- The client is 1000 us behind; the probe takes 300 us, the answer 10 us and the reply 100 us.
abbrev exchange : ProbeResult
exchange = record {
  server_send_ts = pos 5000;
  client_recv_ts = pos 4300;
  client_send_ts = pos 4310;
  server_recv_ts = pos 5410;
}

exchange-Exchange : Exchange (pos 1000) 300 10 100 exchange
unfolding ◌+ℤ◌
exchange-Exchange = record { arrives = refl; answers = refl; returns = refl }

abbrev rounds_met : List Round
rounds_met =
    record {
      sent_at = pos 5000;
      write_ok = true;
      reply = some (pos 4300, pos 4310);
      received_at = pos 5410;
    }
    ∷ record {
      sent_at = pos 6000;
      write_ok = true;
      reply = some (pos 5100, pos 5110);
      received_at = pos 6210;
    }
    ∷ []

abbrev second : ProbeResult
second = record {
  server_send_ts = pos 6000;
  client_recv_ts = pos 5100;
  client_send_ts = pos 5110;
  server_recv_ts = pos 6210;
}

abbrev known : ClientClock
known = record { id = codes "a"; offset_us = pos 100; rtt_us = pos 400; last_sync_time = 1 }

offset_error_example :
    let p : ProbeResult = exchange in
    let theta : ℤ = pos 1000 in
    let there : ℕ = 300 in
    let back : ℕ = 100 in
    (rtt p ≡ pos (there + back))
    × (there ≤ back + 2 * abs (offset p -ℤ theta) + 1)
    × (back ≤ there + 2 * abs (offset p -ℤ theta) + 1)
    × (2 * abs (offset p -ℤ theta) ≤ there + back + 1)
offset_error_example = offset_error exchange (pos 1000) 300 10 100 (omega arith) exchange-Exchange

handshake_stores_example :
    let id : GoString = codes "a" in
    let other : GoString = codes "b" in
    let rounds : List Round = rounds_met in
    let first : ProbeResult = exchange in
    let rest : List ProbeResult = second ∷ [] in
    let now : ℕ = 9 in
    let send_ok : Bool = false in
    let cs : ClockSync = [] in
    (c : ClientClock) × Settled c id now (first ∷ rest)
    × (lookup id (initial_handshake id rounds now send_ok cs).0 ≡ some c)
    × ((initial_handshake id rounds now send_ok cs).1
        ≡ (if send_ok then ok c.offset_us else err send_offset))
    × (lookup other (initial_handshake id rounds now send_ok cs).0 ≡ lookup other cs)
unfolding probe_rounds probe_round
handshake_stores_example =
    handshake_stores (codes "a") (codes "b") rounds_met exchange (second ∷ []) 9 false []
      ((λ h. ground (arith, h))) refl
