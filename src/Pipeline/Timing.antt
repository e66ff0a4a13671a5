-- ===== src/Pipeline/Timing.antt =====
-- cmd/soundswarm-server/main.go: the timestamps of the pipeline.
use soundswamp.Prelude.{ℕ, ◌^◌, ◌≤◌, ◌≡◌, ◌∙◌, inl, inr, false, arith, if◌then◌else◌, Bool-cases}
use soundswamp.Prelude.Int.{
  ℤ, pos, negsuc, ◌+ℤ◌, ◌-ℤ◌, ltb_ℤ, Within, wrap64-Within, -ℤ-Within, +ℤ_parts, -ℤ_parts,
  parts_of_eq, eq_of_parts, abs, abs_parts, one_side, ltb_ℤ_not→le,
}
use soundswamp.Pipeline.{Clockwork, sample_time, tick, add64, sub64}

tick_time :
    (rate channels n : ℕ) (now : ℤ) (c : Clockwork)
    → let ts = sample_time rate c in
      let delta = sub64 now ts in
      (tick rate channels n now c).0 ≡ (
        if ltb_ℤ (pos 100000) delta
        then add64 ts delta
        else if ltb_ℤ delta (negsuc 99999)
        then add64 ts delta
        else ts)
unfolding tick
tick_time rate channels n now c = ground arith

-- Going to a time by the difference to it.
add64-sub64 :
    (now ts : ℤ) → Within (2 ^ 60) now → Within (2 ^ 60) ts → add64 ts (sub64 now ts) ≡ now
add64-sub64 now ts hn hs =
    rw (wrap64-Within (2 ^ 61) (now -ℤ ts) (omega arith) apart)
      (rw back (wrap64-Within (2 ^ 60) now (omega arith) hn))
  where
    apart : Within (2 ^ 61) (now -ℤ ts)
    apart = -ℤ-Within (2 ^ 60) (2 ^ 60) now ts hn hs

    back : ts +ℤ (now -ℤ ts) ≡ now
    back = eq_of_parts _ _ (omega (arith, +ℤ_parts, -ℤ_parts))

no_distance : (x : ℤ) → abs (x -ℤ x) ≡ 0
no_distance x = omega (arith, abs_parts (x -ℤ x), -ℤ_parts x x, one_side (x -ℤ x))

-- The timestamp that a frame is sent with is never more than 100 ms from the clock at its capture: for
-- a clock and a sample time below 2 ^ 60 in size.
pub tick_near_clock :
    (rate channels n : ℕ) (now : ℤ) (c : Clockwork)
    → Within (2 ^ 60) now
    → Within (2 ^ 60) (sample_time rate c)
    → abs (now -ℤ (tick rate channels n now c).0) ≤ 100000
tick_near_clock rate channels n now c hn hs = elim (Bool-cases (ltb_ℤ (pos 100000) delta)) [
  | inl ahead ↦
      let e : out ≡ add64 ts delta = tick_time rate channels n now c ∙ rw ahead in snapped e
  | inr near ↦ elim (Bool-cases (ltb_ℤ delta (negsuc 99999))) [
    | inl behind ↦
        let e : out ≡ add64 ts delta = tick_time rate channels n now c ∙ rw (near, behind) in
        snapped e
    | inr close ↦
        let e : out ≡ ts = tick_time rate channels n now c ∙ rw (near, close) in
        rw e (kept near close)
  ]
]
  where
    ts : ℤ
    ts = sample_time rate c

    delta : ℤ
    delta = sub64 now ts

    exact : delta ≡ now -ℤ ts
    exact =
        wrap64-Within (2 ^ 61) (now -ℤ ts) (omega arith) (-ℤ-Within (2 ^ 60) (2 ^ 60) now ts hn hs)

    kept :
        ltb_ℤ (pos 100000) delta ≡ false
        → ltb_ℤ delta (negsuc 99999) ≡ false
        → abs (now -ℤ ts) ≤ 100000
    kept near close = omega (
      arith,
      abs_parts (now -ℤ ts),
      one_side (now -ℤ ts),
      ltb_ℤ_not→le (pos 100000) delta near,
      ltb_ℤ_not→le delta (negsuc 99999) close,
      parts_of_eq exact,
    )

    out : ℤ
    out = (tick rate channels n now c).0

    snapped :
        (tick rate channels n now c).0 ≡ add64 ts delta
        → abs (now -ℤ (tick rate channels n now c).0) ≤ 100000
    snapped e = rw (e ∙ add64-sub64 now ts hn hs) (omega (arith, no_distance now))
