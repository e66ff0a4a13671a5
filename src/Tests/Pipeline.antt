-- ===== src/Tests/Pipeline.antt =====
-- cmd/soundswarm-server/main.go: a pipeline that is 300 ms late.
use soundswamp.Prelude.{ℕ, ◌≤◌, arith}
use soundswamp.Prelude.Int.{ℤ, pos, ◌+ℤ◌, ◌-ℤ◌, abs, quot, wrap64}
use soundswamp.Prelude.Table.{string_eq}
use soundswamp.Pipeline.{Clockwork, sample_time, tick}
use soundswamp.Pipeline.Timing.{tick_near_clock}

abbrev clockwork : Clockwork
clockwork = record { total_samples_processed = pos 48000; pipeline_start_us = pos 500 }

tick_near_clock_example :
    let rate : ℕ = 48000 in
    let channels : ℕ = 2 in
    let n : ℕ = 960 in
    let now : ℤ = pos 1300500 in
    let c : Clockwork = clockwork in abs (now -ℤ (tick rate channels n now c).0) ≤ 100000
unfolding sample_time wrap64 ◌+ℤ◌ quot
tick_near_clock_example =
    tick_near_clock 48000 2 960 (pos 1300500) clockwork (omega arith) (omega arith)
