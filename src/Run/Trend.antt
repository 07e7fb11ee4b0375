-- ===== src/Run/Trend.antt =====
-- main.py, `_maybe_alert_trend`: one alert for each episode of a drifting p95.
pub mod Episode
pub mod Survives
use vigil_sre.Prelude.{
  ℕ, suc, ◌*◌, Bool, true, false, not, ◌||◌, Option, none, some, List, [], ◌∷◌, ltb, if◌then◌else◌,
  is_some, get_or,
}
use vigil_sre.Diagnostics.Trend.{Window, Verdict, latency_trend, degrading}
use vigil_sre.Notifiers.Kind.{trend_degrading}
use vigil_sre.State.Manager.{StateManager, p95_change, current_status, trend_alerted_p95}
use vigil_sre.State.Markers.{record_trend_alert}
use vigil_sre.Check.World.{World, with_state}
use vigil_sre.Check.Funnel.{is_delivered, alert_unless_muted}
use vigil_sre.Check.Url.{Target}

-- What the history database answers for one target: an `sqlite3.Error`, or the two windows.
pub data TrendRead : Type 0 where
  unreadable : TrendRead
  windows : Option Window → Option Window → TrendRead

abbrev pub empty_window : Window
empty_window = record { p95 = none; samples = 0; total = 0 }

abbrev pub is_degrading : Verdict → Bool
is_degrading degrading = true
is_degrading _ = false

-- A target that owes an alert, with its p95 before and now.
pub record Candidate : Type 0 where
  pub target : Target
  pub previous_p95 : ℕ
  pub recent_p95 : ℕ

-- `verdict["recent_p95_ms"] < alerted * (1.0 + TREND_MIN_CHANGE_PCT / 100.0)`
unfoldable pub already_announced : Option ℕ → ℕ → Bool
already_announced none recent = false
already_announced (some alerted) recent = ltb (2 * recent) (3 * alerted)

-- One target's verdict: the candidate if there is one, and the marker cleared if not degrading.
unfoldable pub judge : Target → Window → Window → StateManager → Option Candidate × StateManager
unfolding already_announced
judge t recent previous m =
    if is_degrading (latency_trend recent previous).verdict
    then if already_announced (trend_alerted_p95 m t.url) (get_or recent.p95 0)
      then (none, m)
      else (
        some (record {
          target = t;
          previous_p95 = get_or previous.p95 0;
          recent_p95 = get_or recent.p95 0;
        }),
        m,
      )
    else if is_some (trend_alerted_p95 m t.url)
    then (none, record_trend_alert t.url none m)
    else (none, m)

abbrev pub add_candidate : Option Candidate → Option (List Candidate) → Option (List Candidate)
add_candidate none cs = cs
add_candidate (some c) none = none
add_candidate (some c) (some cs) = some (c ∷ cs)

-- The first loop; `none` is the early return of an unreadable database.
unfoldable pub collect :
    List (Target × TrendRead) → StateManager → Option (List Candidate) × StateManager
unfolding judge
collect [] m = (some [], m)
collect ((t, unreadable) ∷ ts) m =
    let rest = collect ts m in
    if not t.trend_alerts || not (is_some (current_status m t.url)) then rest else (none, m)
collect ((t, windows recent previous) ∷ ts) m =
    let skip = not t.trend_alerts || not (is_some (current_status m t.url)) in
    let (candidate, m') =
      if skip
      then (none, m)
      else judge t (get_or recent empty_window) (get_or previous empty_window) m in
    let (rest, m'') = collect ts m' in (add_candidate candidate rest, m'')

-- The second loop: each alert, and its marker once it reached a channel.
unfoldable pub send_trends : List Candidate → World → ℕ × World
send_trends [] w = (0, w)
send_trends (c ∷ cs) w =
    let (outcome, w') =
      alert_unless_muted c.target.url (p95_change c.previous_p95 c.recent_p95) trend_degrading
        c.target.maintenance w in
    let w'' =
      if is_delivered outcome
      then with_state (record_trend_alert c.target.url (some c.recent_p95)) w'
      else w' in
    let (n, w3) = send_trends cs w'' in (if is_delivered outcome then suc n else n, w3)

unfoldable pub maybe_alert_trend : List (Target × TrendRead) → World → ℕ × World
unfolding collect send_trends
maybe_alert_trend targets w =
    let (candidates, m) = collect targets w.state in
    let w' = record w { state = m } in
    elim candidates [ none ↦ (0, w') | some cs ↦ send_trends cs w' ]
