-- ===== src/Clock/Handshake.antt =====
-- internal/sync/clock.go: InitialHandshake, ProcessPeriodicReply and the map of clocks.
use soundswamp.Prelude.{ℕ, ◌≡◌, ◌≢◌, refl, ap, ◌∙◌, Bool, some, List, ◌∷◌, if◌then◌else◌}
use soundswamp.Prelude.Table.{
  GoString, lookup, insert, lookup-insert_self, lookup-insert_ne, string_eq,
}
use soundswamp.Clock.{
  ClientClock, ClockSync, ProbeResult, rtt, offset, best_round, Round, Error, ok, err, send_offset,
  probe_rounds, initial_handshake,
}
use soundswamp.Clock.Probe.{Least, best_round-Least}

-- The clock that a handshake stores for a list of results.
abbrev pub Settled : ClientClock → GoString → ℕ → List ProbeResult → Type 0
Settled c id now results =
    (best : ProbeResult) × Least best results
    × (c.offset_us ≡ offset best)
    × (c.rtt_us ≡ rtt best)
    × (c.id ≡ id)
    × (c.last_sync_time ≡ now)

-- When all rounds give a result, the handshake stores for the client the offset and the round trip of
-- a round that no other beats on round trip; it tells the client just that offset, or reports that
-- sending failed; and the clocks of other clients stay. The clock is stored in both cases.
pub handshake_stores :
    (id other : GoString) (rounds : List Round) (first : ProbeResult) (rest : List ProbeResult)
    (now : ℕ) (send_ok : Bool) (cs : ClockSync)
    → id ≢ other
    → probe_rounds rounds ≡ ok (first ∷ rest)
    → (c : ClientClock) × Settled c id now (first ∷ rest)
      × (lookup id (initial_handshake id rounds now send_ok cs).0 ≡ some c)
      × ((initial_handshake id rounds now send_ok cs).1
          ≡ (if send_ok then ok c.offset_us else err send_offset))
      × (lookup other (initial_handshake id rounds now send_ok cs).0 ≡ lookup other cs)
unfolding initial_handshake
handshake_stores id other rounds first rest now send_ok cs ne e =
    let best = best_round first rest in
    let c : ClientClock = record {
      id = id;
      offset_us = offset best;
      rtt_us = rtt best;
      last_sync_time = now;
    } in
    let done : initial_handshake id rounds now send_ok cs
        ≡ (insert id c cs, if send_ok then ok (offset best) else err send_offset) =
      rw (e, initial_handshake) in
    (
      c,
      (best, best_round-Least first rest, refl, refl, refl, refl),
      ap (λ r. lookup id r.0) done ∙ lookup-insert_self id c cs,
      ap (λ r. r.1) done,
      ap (λ r. lookup other r.0) done ∙ lookup-insert_ne id other c cs ne,
    )

-- A handshake in which a round fails reports that failure and stores nothing.
pub handshake_fails :
    (id : GoString) (rounds : List Round) (x : Error) (now : ℕ) (send_ok : Bool) (cs : ClockSync)
    → probe_rounds rounds ≡ err x
    → initial_handshake id rounds now send_ok cs ≡ (cs, err x)
unfolding initial_handshake
handshake_fails id rounds x now send_ok cs e = rw (e, initial_handshake)
