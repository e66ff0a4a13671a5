-- ===== src/Clock.antt =====
-- internal/sync/clock.go: NTP-like clock synchronisation. Times are int64 microseconds, and int64
-- arithmetic is exact arithmetic that wraps. The wall clock, the JSON codec and the connection are
-- arguments: what they answer comes in with each call.
pub mod Probe
pub mod Median
pub mod Handshake
use soundswamp.Prelude.{
  ℕ, zero, suc, ◌/◌, ◌%◌, ◌-◌, ◌≡◌, Bool, Option, none, some, List, [], ◌∷◌, ◌==◌, if◌then◌else◌,
  ltb, length, get_or,
}
use soundswamp.Prelude.Int.{ℤ, pos, ◌+ℤ◌, ◌-ℤ◌, ltb_ℤ, quot, wrap64}
use soundswamp.Prelude.Table.{GoString, Table, lookup, insert, delete, string_eq}

abbrev pub initial_probe_rounds : ℕ
initial_probe_rounds = 8

abbrev pub drift_correction_threshold_us : ℤ
drift_correction_threshold_us = pos 500

-- ClientClock.
pub record ClientClock : Type 0 where
  pub id : GoString
  pub offset_us : ℤ
  pub rtt_us : ℤ
  pub last_sync_time : ℕ

-- ClockSync: its map. Each entry is reached through the map alone, so it is kept by value.
abbrev pub ClockSync : Type 0
ClockSync = Table GoString ClientClock

pub record ProbeResult : Type 0 where
  pub server_send_ts : ℤ
  pub client_recv_ts : ℤ
  pub client_send_ts : ℤ
  pub server_recv_ts : ℤ

abbrev pub sub64 : ℤ → ℤ → ℤ
sub64 a b = wrap64 (a -ℤ b)

unfoldable pub rtt : ProbeResult → ℤ
rtt p = sub64 (sub64 p.server_recv_ts p.server_send_ts) (sub64 p.client_send_ts p.client_recv_ts)

unfoldable pub offset : ProbeResult → ℤ
offset p = wrap64 (
    quot
      (wrap64 (sub64 p.server_send_ts p.client_recv_ts +ℤ sub64 p.server_recv_ts p.client_send_ts))
      2)

-- The loop of InitialHandshake over `results[1:]`.
unfoldable pub best_round : ProbeResult → List ProbeResult → ProbeResult
best_round best [] = best
best_round best (r ∷ rs) = best_round (if ltb_ℤ (rtt r) (rtt best) then r else best) rs

-- abs64: the negation wraps too.
unfoldable pub abs64 : ℤ → ℤ
abs64 v = if ltb_ℤ v (pos 0) then wrap64 (pos 0 -ℤ v) else v

-- What one round of the handshake meets: the time before the probe is written, whether writing it
-- succeeds, the reply's two client times if a reply is read, and the time after that.
pub record Round : Type 0 where
  pub sent_at : ℤ
  pub write_ok : Bool
  pub reply : Option (ℤ × ℤ)
  pub received_at : ℤ

pub data Error : Type 0 where
  send_probe read_reply send_offset unknown_client send_correction no_rounds : Error

pub data Result {ℓ} (A : Type ℓ) : Type ℓ where
  ok : A → Result A
  err : Error → Result A

infixl 5 ◌>>=◌
abbrev pub ◌>>=◌ {ℓ κ} : {A : Type ℓ} {B : Type κ} → Result A → (A → Result B) → Result B
ok a >>= f = f a
err e >>= f = err e

-- One round: the probe is written, then the reply is read.
unfoldable pub probe_round : Round → Result ProbeResult
probe_round r =
    if r.write_ok
    then elim r.reply [
      | none ↦ err read_reply
      | some (client_recv, client_send) ↦ ok (record {
        server_send_ts = r.sent_at;
        client_recv_ts = client_recv;
        client_send_ts = client_send;
        server_recv_ts = r.received_at;
      })
    ]
    else err send_probe

-- The rounds in turn, up to the first that fails.
unfoldable pub probe_rounds : List Round → Result (List ProbeResult)
unfolding probe_round
probe_rounds [] = ok []
probe_rounds (r ∷ rs) = do p ← probe_round r; ps ← probe_rounds rs; ok (p ∷ ps)

-- The part of InitialHandshake after the rounds. The clock is stored before the offset is sent, and
-- stays stored if sending fails. The offset is what the client is sent.
unfoldable pub settle : GoString → List ProbeResult → ℕ → Bool → ClockSync → ClockSync × Result ℤ
settle id [] now send_ok cs = (cs, err no_rounds)
settle id (first ∷ rest) now send_ok cs =
    let best = best_round first rest in
    let clock : ClientClock = record {
      id = id;
      offset_us = offset best;
      rtt_us = rtt best;
      last_sync_time = now;
    } in
    (insert id clock cs, if send_ok then ok (offset best) else err send_offset)

-- InitialHandshake, given what its rounds meet, the time at which it stores the clock and whether
-- sending the offset succeeds. The code runs `initial_probe_rounds` rounds; here there may be any number.
unfoldable pub initial_handshake :
    GoString → List Round → ℕ → Bool → ClockSync → ClockSync × Result ℤ
unfolding probe_rounds settle
initial_handshake id rounds now send_ok cs = elim (probe_rounds rounds) [
  | err e ↦ (cs, err e)
  | ok results ↦ settle id results now send_ok cs
]

-- SendPeriodicProbe: `sends` is whether sendFunc succeeds; the result is the time in the probe.
unfoldable pub send_periodic_probe : GoString → ℤ → Bool → ClockSync → Result ℤ
send_periodic_probe id now sends cs = elim (lookup id cs) [
  | none ↦ err unknown_client
  | some c ↦ if sends then ok now else err send_probe
]

-- ProcessPeriodicReply, with the reply's three times, the time of its receipt, the wall clock and
-- whether a correction can be written. The result is the correction that was sent, if any.
unfoldable pub process_periodic_reply :
    GoString → ℤ → ℤ → ℤ → ℤ → ℕ → Bool → ClockSync → ClockSync × Result (Option ℤ)
process_periodic_reply id server_send client_recv client_send server_recv now sends cs =
    elim (lookup id cs) [
      | none ↦ (cs, err unknown_client)
      | some c ↦
          let result : ProbeResult = record {
            server_send_ts = server_send;
            client_recv_ts = client_recv;
            client_send_ts = client_send;
            server_recv_ts = server_recv;
          } in
          let new_offset = offset result in
          let delta = abs64 (sub64 new_offset c.offset_us) in
          if ltb_ℤ drift_correction_threshold_us delta
          then (
            insert id
                (record c { offset_us = new_offset; rtt_us = rtt result; last_sync_time = now }) cs,
            if sends then ok (some new_offset) else err send_correction,
          )
          else (insert id (record c { last_sync_time = now }) cs, ok none)
    ]

unfoldable pub get_client_offset : GoString → ClockSync → Result ℤ
get_client_offset id cs = elim (lookup id cs) [
  | none ↦ err unknown_client
  | some c ↦ ok c.offset_us
]

unfoldable pub remove_client : GoString → ClockSync → ClockSync
remove_client id cs = delete id cs

unfoldable pub client_count : ClockSync → ℕ
client_count cs = length cs

-- sort.Slice with `<`: the values in rising order.
unfoldable pub insert_sorted : ℤ → List ℤ → List ℤ
insert_sorted x [] = x ∷ []
insert_sorted x (y ∷ ys) = if ltb_ℤ y x then y ∷ insert_sorted x ys else x ∷ y ∷ ys

unfoldable pub sort : List ℤ → List ℤ
unfolding insert_sorted
sort [] = []
sort (x ∷ xs) = insert_sorted x (sort xs)

-- medianInt64.
unfoldable pub median_int64 : List ℤ → ℤ
unfolding sort
median_int64 values =
    if length values == 0
    then pos 0
    else let sorted = sort values in
      let mid = length sorted / 2 in
      if length sorted % 2 == 0
      then wrap64 (quot (wrap64 (get_or sorted (mid - 1) (pos 0) +ℤ get_or sorted mid (pos 0))) 2)
      else get_or sorted mid (pos 0)
