-- ===== src/Clock/Probe.antt =====
-- internal/sync/clock.go: what one probe measures, and which probe the handshake keeps.
use soundswamp.Prelude.{
  ℕ, ◌+◌, ◌*◌, ◌^◌, ◌≤◌, ◌≡◌, refl, ◌∙◌, ◌⊎◌, inl, inr, List, [], ◌∷◌, arith, if◌then◌else◌,
  Bool-cases, All,
}
use soundswamp.Prelude.Int.{
  ℤ, pos, pos_part, neg_part, ◌+ℤ◌, ◌-ℤ◌, ◌≤ℤ◌, ltb_ℤ, quot, wrap64-Within, Within, -ℤ-Within,
  +ℤ-Within, quot_two-Within, parts_of_eq, abs, +ℤ_parts, -ℤ_parts, eq_of_parts, quot_two_parts,
  one_side, abs_parts, ltb_ℤ→lt, ltb_ℤ_not→le,
}
use soundswamp.Clock.{ProbeResult, rtt, offset, best_round}

-- Timestamps that are far from the ends of int64: microseconds up to 2 ^ 60 are 36,000 years.
abbrev pub IsTime : ℤ → Type 0
IsTime = Within (2 ^ 60)

abbrev pub Timely : ProbeResult → Type 0
Timely p =
    IsTime p.server_send_ts
    × IsTime p.client_recv_ts
    × IsTime p.client_send_ts
    × IsTime p.server_recv_ts

-- On such times no operation wraps.
rtt-eq :
    (p : ProbeResult)
    → Timely p
    → rtt p ≡ (p.server_recv_ts -ℤ p.server_send_ts) -ℤ (p.client_send_ts -ℤ p.client_recv_ts)
unfolding rtt
rtt-eq p t =
    rw (wrap64-Within (2 ^ 61) (p.server_recv_ts -ℤ p.server_send_ts) (omega arith) there) (
      rw (wrap64-Within (2 ^ 61) (p.client_send_ts -ℤ p.client_recv_ts) (omega arith) here)
        (wrap64-Within (2 ^ 62) _ (omega arith) (-ℤ-Within (2 ^ 61) (2 ^ 61) _ _ there here)))
  where
    there : Within (2 ^ 61) (p.server_recv_ts -ℤ p.server_send_ts)
    there = -ℤ-Within (2 ^ 60) (2 ^ 60) _ _ t.3 t.0

    here : Within (2 ^ 61) (p.client_send_ts -ℤ p.client_recv_ts)
    here = -ℤ-Within (2 ^ 60) (2 ^ 60) _ _ t.2 t.1

offset-eq :
    (p : ProbeResult)
    → Timely p
    → offset p
      ≡ quot ((p.server_send_ts -ℤ p.client_recv_ts) +ℤ (p.server_recv_ts -ℤ p.client_send_ts)) 2
unfolding offset
offset-eq p t =
    rw (wrap64-Within (2 ^ 61) (p.server_send_ts -ℤ p.client_recv_ts) (omega arith) out) (
      rw (wrap64-Within (2 ^ 61) (p.server_recv_ts -ℤ p.client_send_ts) (omega arith) home) (
        rw (wrap64-Within (2 ^ 62) sum (omega arith) both)
          (wrap64-Within (2 ^ 62) (quot sum 2) (omega arith) (quot_two-Within (2 ^ 62) sum both))))
  where
    out : Within (2 ^ 61) (p.server_send_ts -ℤ p.client_recv_ts)
    out = -ℤ-Within (2 ^ 60) (2 ^ 60) _ _ t.0 t.1

    home : Within (2 ^ 61) (p.server_recv_ts -ℤ p.client_send_ts)
    home = -ℤ-Within (2 ^ 60) (2 ^ 60) _ _ t.3 t.2

    sum : ℤ
    sum = (p.server_send_ts -ℤ p.client_recv_ts) +ℤ (p.server_recv_ts -ℤ p.client_send_ts)

    both : Within (2 ^ 62) sum
    both = +ℤ-Within (2 ^ 61) (2 ^ 61) _ _ out home

-- An exchange as it happened: the client's clock is `theta` behind the server's, the probe is under
-- way for `there`, the client takes `think` to answer, and the reply is under way for `back`.
pub record Exchange (theta : ℤ) (there think back : ℕ) (p : ProbeResult) : Type 0 where
  pub arrives : p.client_recv_ts +ℤ theta ≡ p.server_send_ts +ℤ pos there
  pub answers : p.client_send_ts ≡ p.client_recv_ts +ℤ pos think
  pub returns : p.server_recv_ts ≡ p.client_send_ts +ℤ theta +ℤ pos back

pub rtt_delays :
    (p : ProbeResult) (theta : ℤ) (there think back : ℕ)
    → Timely p
    → Exchange theta there think back p
    → rtt p ≡ pos (there + back)
rtt_delays p theta there think back t x = rw (rtt-eq p t) (
    eq_of_parts _ _ (
      omega (
        arith,
        -ℤ_parts,
        +ℤ_parts,
        parts_of_eq x.arrives,
        parts_of_eq x.answers,
        parts_of_eq x.returns,
      )))

-- The dividend of the offset is twice the true offset, with the difference of the delays.
offset_sum :
    (p : ProbeResult) (theta : ℤ) (there think back : ℕ)
    → Exchange theta there think back p
    → let sum = (p.server_send_ts -ℤ p.client_recv_ts) +ℤ (p.server_recv_ts -ℤ p.client_send_ts) in
      pos_part sum + 2 * neg_part theta + there ≡ neg_part sum + 2 * pos_part theta + back
offset_sum p theta there think back x =
    omega (
      arith,
      -ℤ_parts,
      +ℤ_parts,
      parts_of_eq x.arrives,
      parts_of_eq x.answers,
      parts_of_eq x.returns,
    )

-- For an exchange with times below 2 ^ 60 in size: the measured round trip is the sum of the two
-- network delays, and the measured offset is off by half the difference of the delays, up to the
-- rounding of one division by two; so it is off by at most half the measured round trip, rounded up.
pub offset_error :
    (p : ProbeResult) (theta : ℤ) (there think back : ℕ)
    → Timely p
    → Exchange theta there think back p
    → (rtt p ≡ pos (there + back))
      × (there ≤ back + 2 * abs (offset p -ℤ theta) + 1)
      × (back ≤ there + 2 * abs (offset p -ℤ theta) + 1)
      × (2 * abs (offset p -ℤ theta) ≤ there + back + 1)
offset_error p theta there think back t x =
    (rtt_delays p theta there think back t x, bounds.0, bounds.1, bounds.2)
  where
    sum : ℤ
    sum = (p.server_send_ts -ℤ p.client_recv_ts) +ℤ (p.server_recv_ts -ℤ p.client_send_ts)

    err : ℤ
    err = quot sum 2 -ℤ theta

    bounds :
        (there ≤ back + 2 * abs (offset p -ℤ theta) + 1)
        × (back ≤ there + 2 * abs (offset p -ℤ theta) + 1)
        × (2 * abs (offset p -ℤ theta) ≤ there + back + 1)
    bounds = rw (offset-eq p t) (
        omega (
          arith,
          offset_sum p theta there think back x,
          quot_two_parts sum,
          -ℤ_parts (quot sum 2) theta,
          abs_parts err,
          one_side err,
          one_side sum,
        ))

-- `r` is one of the rounds.
abbrev pub Among : ProbeResult → List ProbeResult → Type 0
Among r [] = ⊥
Among r (q ∷ qs) = (r ≡ q) ⊎ Among r qs

best_round_le :
    (best r : ProbeResult) (rs : List ProbeResult)
    → rtt best ≤ℤ rtt r
    → rtt (best_round best rs) ≤ℤ rtt r
unfolding best_round
best_round_le best r [] h = h
best_round_le best r (q ∷ qs) h = elim (Bool-cases (ltb_ℤ (rtt q) (rtt best))) [
  | inl less ↦ rw less (best_round_le q r qs (omega (arith, ltb_ℤ→lt (rtt q) (rtt best) less)))
  | inr same ↦ rw same (best_round_le best r qs h)
]

-- The round that the handshake keeps is one of its rounds.
pub best_round-Among :
    (best : ProbeResult) (rs : List ProbeResult) → Among (best_round best rs) (best ∷ rs)
unfolding best_round
best_round-Among best [] = inl refl
best_round-Among best (q ∷ qs) =
    elim (best_round-Among (if ltb_ℤ (rtt q) (rtt best) then q else best) qs) [
      | inr h ↦ inr (inr h)
      | inl e ↦ elim (Bool-cases (ltb_ℤ (rtt q) (rtt best))) [
        | inl less ↦ inr (inl (e ∙ rw less))
        | inr same ↦ inl (e ∙ rw same)
      ]
    ]

-- No round has a shorter round trip than the one that the handshake keeps.
pub best_round_least :
    (best r : ProbeResult) (rs : List ProbeResult)
    → Among r (best ∷ rs)
    → rtt (best_round best rs) ≤ℤ rtt r
unfolding best_round
best_round_least best r rs (inl e) = best_round_le best r rs (rw e (omega arith))
best_round_least best r [] (inr h) = absurd h
best_round_least best r (q ∷ qs) (inr h) = elim (Bool-cases (ltb_ℤ (rtt q) (rtt best))) [
  | inl less ↦ rw less (best_round_least q r qs h)
  | inr same ↦ rw same (elim h [
    | inl e ↦ best_round_le best r qs (rw e (omega (arith, ltb_ℤ_not→le (rtt q) (rtt best) same)))
    | inr later ↦ best_round_least best r qs (inr later)
  ])
]

All-of_Among :
    (P : ProbeResult → Type 0) (rs : List ProbeResult)
    → ((r : ProbeResult) → Among r rs → P r)
    → All P rs
All-of_Among P [] h = tt
All-of_Among P (r ∷ rs) h = (h r (inl refl), All-of_Among P rs (λ q a. h q (inr a)))

-- `best` is one of the rounds, and none has a shorter round trip.
abbrev pub Least : ProbeResult → List ProbeResult → Type 0
Least best rs = Among best rs × All (λ r. rtt best ≤ℤ rtt r) rs

pub best_round-Least :
    (best : ProbeResult) (rs : List ProbeResult) → Least (best_round best rs) (best ∷ rs)
best_round-Least best rs = (
  best_round-Among best rs,
  All-of_Among (λ r. rtt (best_round best rs) ≤ℤ rtt r) (best ∷ rs)
      (λ r a. best_round_least best r rs a),
)
