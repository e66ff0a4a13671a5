-- ===== src/Latency.antt =====
-- internal/sync/latency.go: the global playback delay. float64 is a parameter (Prelude/Float); times
-- are numbers; the map of reports is a table, whose order stands for the order of one iteration.
pub mod Maximum
pub mod Bounds
pub mod Reports
use soundswamp.Prelude.{
  ℕ, Bool, true, false, ◌&&◌, Option, none, some, List, [], ◌∷◌, ◌++◌, ◌==◌, if◌then◌else◌, length,
}
use soundswamp.Prelude.Table.{GoString, Table, lookup, insert, delete, string_eq}
use soundswamp.Prelude.Float.{Float}

-- What the callbacks are asked to do. Broadcasts are handed to goroutines.
pub data Event (f : Float) : Type 0 where
  broadcast : f.Carrier → Event f
  set_frame_size : GoString → ℕ → Event f

-- A call of a nil function value panics.
pub data Outcome (A : Type 0) : Type 0 where
  done : A → Outcome A
  panic : Outcome A

module _ (f : Float) where
  open f use {Carrier, lit, lt, le, add, sub, abs}

  abbrev pub default_headroom_ms : Carrier
  default_headroom_ms = lit 200

  abbrev pub min_global_delay_ms : Carrier
  min_global_delay_ms = lit 200

  abbrev pub max_global_delay_ms : Carrier
  max_global_delay_ms = lit 5000

  abbrev pub rebroadcast_threshold_ms : Carrier
  rebroadcast_threshold_ms = lit 100

  abbrev pub ios_bg_jitter_threshold_ms : Carrier
  ios_bg_jitter_threshold_ms = lit 300

  abbrev pub ios_bg_frame_ms : ℕ
  ios_bg_frame_ms = 40

  pub record JitterReport : Type 0 where
    pub p95_ms : Carrier
    pub updated_at : ℕ

  -- LatencyEqualizer. Of the two callbacks the state keeps whether they are set.
  pub record Equalizer : Type 0 where
    pub reports : Table GoString JitterReport
    pub global_delay : Carrier
    pub headroom : Carrier
    pub has_broadcaster : Bool
    pub has_frame_setter : Bool
    pub laptop_client_id : GoString
    pub loopback_latency_ms : Carrier

  unfoldable pub new_equalizer : Bool → Bool → Equalizer
  new_equalizer broadcaster frame_setter = record {
    reports = [];
    global_delay = min_global_delay_ms;
    headroom = default_headroom_ms;
    has_broadcaster = broadcaster;
    has_frame_setter = frame_setter;
    laptop_client_id = [];
    loopback_latency_ms = lit 0;
  }

  unfoldable pub set_loopback_compensation : GoString → Carrier → Equalizer → Equalizer
  set_loopback_compensation id latency e = record e {
    laptop_client_id = id;
    loopback_latency_ms = latency;
  }

  -- The loop over the reports, from the largest value so far.
  unfoldable pub max_p95 : Carrier → Table GoString JitterReport → Carrier
  max_p95 acc [] = acc
  max_p95 acc ((id, r) ∷ rs) = max_p95 (if lt acc r.p95_ms then r.p95_ms else acc) rs

  -- The delay that the reports ask for, within the allowed range.
  unfoldable pub clamped : Carrier → Carrier
  clamped d =
      let d = if lt d min_global_delay_ms then min_global_delay_ms else d in
      if lt max_global_delay_ms d then max_global_delay_ms else d

  -- Down by at most 2 ms in one step.
  unfoldable pub hysteresis : Carrier → Carrier → Carrier
  hysteresis d global_delay =
      if lt d global_delay
      then (if lt (lit 20) (sub global_delay d) then sub global_delay (lit 20) else d)
      else d

  -- Where a recalculation wants the delay to go.
  unfoldable pub target : Equalizer → Carrier
  unfolding clamped hysteresis max_p95
  target e = hysteresis (clamped (add (max_p95 (lit 0) e.reports) e.headroom)) e.global_delay

  unfoldable pub recalculate : Equalizer → Equalizer × List (Event f)
  recalculate e =
      if length e.reports == 0
      then (e, [])
      else let new_delay = target e in
        if lt (abs (sub new_delay e.global_delay)) (lit 5) then (e, []) else (
          record e { global_delay = new_delay },
          if e.has_broadcaster then broadcast new_delay ∷ [] else [],
        )

  -- The part of ReportJitter after the recalculation: `old` is the client's earlier report.
  unfoldable pub adjust_frames :
      GoString → Carrier → Option JitterReport → Bool → Outcome (List (Event f))
  adjust_frames id p95_ms old has_setter =
      if lt ios_bg_jitter_threshold_ms p95_ms && has_setter
      then done (set_frame_size id ios_bg_frame_ms ∷ [])
      else elim old [
        | none ↦ done []
        | some r ↦
            if lt ios_bg_jitter_threshold_ms r.p95_ms && le p95_ms ios_bg_jitter_threshold_ms
            then (if has_setter then done (set_frame_size id 10 ∷ []) else panic)
            else done []
      ]

  -- Whether a change is too small to act on.
  unfoldable pub small_change : Carrier → Option JitterReport → Bool
  small_change p95_ms none = false
  small_change p95_ms (some r) = lt (abs (sub p95_ms r.p95_ms)) rebroadcast_threshold_ms

  with_events :
      Equalizer × List (Event f) → Outcome (List (Event f)) → Outcome (Equalizer × List (Event f))
  with_events (e, events) (done more) = done (e, events ++ more)
  with_events (e, events) panic = panic

  unfoldable pub report_jitter :
      GoString → Carrier → ℕ → Equalizer → Outcome (Equalizer × List (Event f))
  unfolding with_events
  report_jitter id p95_ms now e =
      let old = lookup id e.reports in
      let e' = record e {
        reports = insert id (record { p95_ms = p95_ms; updated_at = now }) e.reports;
      } in
      if small_change p95_ms old
      then done (e', [])
      else with_events (recalculate e') (adjust_frames id p95_ms old e.has_frame_setter)

  unfoldable pub remove_client : GoString → Equalizer → Equalizer × List (Event f)
  remove_client id e = recalculate (record e { reports = delete id e.reports })

  unfoldable pub laptop_playback_target : Equalizer → Carrier
  laptop_playback_target e =
      let target = sub e.global_delay e.loopback_latency_ms in
      if lt target (lit 0) then lit 0 else target

  unfoldable pub get_client_report : GoString → Equalizer → Carrier × Bool
  get_client_report id e = elim (lookup id e.reports) [
    | none ↦ (lit 0, false)
    | some r ↦ (r.p95_ms, true)
  ]

  unfoldable pub set_headroom : Carrier → Equalizer → Equalizer × List (Event f)
  set_headroom ms e = recalculate (record e { headroom = ms })
