-- ===== src/Tests/Latency.antt =====
-- internal/sync/latency.go: an equalizer with one report.
use soundswamp.Prelude.{ℕ, refl, inl, inr, Bool, true, false, List, [], ◌∷◌}
use soundswamp.Prelude.Int.{ℤ, pos, ◌-ℤ◌, abs}
use soundswamp.Prelude.Table.{GoString, Table, lookup, string_eq, str_eq}
use soundswamp.Prelude.Text.{codes}
use soundswamp.Prelude.Float.{Float, tenths, tenths-IsFloat}
use soundswamp.Latency.{Equalizer, JitterReport, new_equalizer}
use soundswamp.Latency.Bounds.{run, Safe, Call, reports, leaves, run_range}
use soundswamp.Latency.Maximum.{Reported}
use soundswamp.Latency.Reports.{Ignored, reports_of, creep-Ignored}

-- One client reports 42 ms to a new equalizer, which has no frame-size callback.
abbrev after_jitter : Equalizer tenths
after_jitter = record {
  reports = (codes "a", record { p95_ms = pos 420; updated_at = 1 }) ∷ [];
  global_delay = pos 200;
  headroom = pos 200;
  has_broadcaster = true;
  has_frame_setter = false;
  laptop_client_id = [];
  loopback_latency_ms = pos 0;
}

-- The same with the delay at 100 ms.
abbrev high_delay : Equalizer tenths
high_delay = let e : Equalizer tenths = after_jitter in record e { global_delay = pos 1000 }

abbrev one_way : Table GoString (JitterReport tenths)
one_way =
    (codes "a", record { p95_ms = pos 420; updated_at = 1 })
    ∷ (codes "b", record { p95_ms = pos 100; updated_at = 2 })
    ∷ []

abbrev other_way : Table GoString (JitterReport tenths)
other_way =
    (codes "b", record { p95_ms = pos 100; updated_at = 2 })
    ∷ (codes "a", record { p95_ms = pos 420; updated_at = 1 })
    ∷ []

swapped : (x : ℤ) → Reported tenths x one_way → Reported tenths x other_way
swapped x (inl h) = inr (inl h)
swapped x (inr (inl h)) = inl h
swapped x (inr (inr h)) = absurd h

run_range_example :
    let f : Float = tenths in
    let cs : List (Call f) = reports (codes "a") (pos 420) 1 ∷ leaves (codes "a") ∷ [] in
    let b : Bool = true in Safe f (run f cs (new_equalizer f b true))
run_range_example =
    run_range tenths tenths-IsFloat (reports (codes "a") (pos 420) 1 ∷ leaves (codes "a") ∷ []) true

creep-Ignored_example :
    let f : Float = tenths in
    let id : GoString = codes "a" in
    let e : Equalizer f = after_jitter in
    let rs : List (f.Carrier × ℕ) = (pos 510, 2) ∷ (pos 600, 3) ∷ [] in
    Ignored f e.global_delay (run f (reports_of f id rs) e)
unfolding lookup str_eq ◌-ℤ◌ abs
creep-Ignored_example =
    creep-Ignored tenths (codes "a") after_jitter (record { p95_ms = pos 420; updated_at = 1 })
      ((pos 510, 2) ∷ (pos 600, 3) ∷ []) refl ((refl, (refl, tt)))
