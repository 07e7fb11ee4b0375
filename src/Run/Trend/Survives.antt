-- ===== src/Run/Trend/Survives.antt =====
-- main.py, `_maybe_alert_trend`: what the marks of trends keep, both its loops keep.
use vigil_sre.Prelude.{ℕ, String, not, ◌||◌, Option, none, some, List, [], ◌∷◌, is_some, get_or}
use vigil_sre.Diagnostics.Trend.{Window, latency_trend}
use vigil_sre.Diagnostics.Maintenance.{in_maintenance}
use vigil_sre.Notifiers.Kind.{AlertKind, is_status_alert_kind, trend_degrading}
use vigil_sre.Notifiers.Dispatch.{dispatch_alert}
use vigil_sre.State.Manager.{
  StateManager, Detail, p95_change, current_status, trend_alerted_p95, note_undelivered_advisory,
}
use vigil_sre.State.Markers.{record_trend_alert}
use vigil_sre.Check.World.{World, read_clock}
use vigil_sre.Check.Funnel.{
  AlertOutcome, is_delivered, alert_unless_muted, after_dispatch, note_outcome, note_mute,
}
use vigil_sre.Check.Url.{Target}
use vigil_sre.Check.Url.Survives.{either}
use vigil_sre.Run.Trend.{
  TrendRead, unreadable, windows, Candidate, is_degrading, already_announced, judge, collect,
  empty_window, send_trends, maybe_alert_trend,
}

module _ (P : StateManager → Type 0)
    (mark : (url : String) (p95 : Option ℕ) (m : StateManager)
      → P m
      → P (record_trend_alert url p95 m))
    (lost : (kind : AlertKind) (m : StateManager)
      → P m
      → P (note_undelivered_advisory kind m)) where
  drift-P :
      (t : Target) (detail : Detail) (w : World)
      → P w.state
      → P (alert_unless_muted t.url detail trend_degrading t.maintenance w).1.state
  unfolding alert_unless_muted after_dispatch note_outcome note_mute is_status_alert_kind read_clock
  drift-P t detail w h =
      either (λ (q : AlertOutcome × World). P q.1.state)
        (is_some (in_maintenance t.maintenance (read_clock w).now)) h
        (either P (dispatch_alert w.channels w.circuits).delivered h
          (lost trend_degrading w.state h))

  judge-P :
      (t : Target) (recent previous : Window) (m : StateManager)
      → P m
      → P (judge t recent previous m).1
  unfolding judge
  judge-P t recent previous m h =
      let Q = λ (q : Option Candidate × StateManager). P q.1 in
      either Q (is_degrading (latency_trend recent previous).verdict)
        (either Q (already_announced (trend_alerted_p95 m t.url) (get_or recent.p95 0)) h h)
        (either Q (is_some (trend_alerted_p95 m t.url)) (mark t.url none m h) h)

  collect-P : (ts : List (Target × TrendRead)) (m : StateManager) → P m → P (collect ts m).1
  unfolding collect
  collect-P [] m h = h
  collect-P ((t, unreadable) ∷ ts) m h =
      either (λ (q : Option (List Candidate) × StateManager). P q.1)
        (not t.trend_alerts || not (is_some (current_status m t.url))) (collect-P ts m h) h
  collect-P ((t, windows recent previous) ∷ ts) m h = collect-P ts _ (
      either (λ (q : Option Candidate × StateManager). P q.1)
        (not t.trend_alerts || not (is_some (current_status m t.url))) h
        (judge-P t (get_or recent empty_window) (get_or previous empty_window) m h))

  send-P : (cs : List Candidate) (w : World) → P w.state → P (send_trends cs w).1.state
  unfolding send_trends
  send-P [] w h = h
  send-P (c ∷ cs) w h =
      let detail = p95_change c.previous_p95 c.recent_p95 in
      let (o, w1) = alert_unless_muted c.target.url detail trend_degrading c.target.maintenance w in
      let h1 = drift-P c.target detail w h in
      send-P cs _ (
        either (λ (v : World). P v.state) (is_delivered o)
          (mark c.target.url (some c.recent_p95) w1.state h1) h1)

  sent-P :
      (cs : Option (List Candidate)) (w : World)
      → P w.state
      → P (elim cs as (λ _. ℕ × World) [ none ↦ (0, w) | some ds ↦ send_trends ds w ]).1.state
  sent-P none w h = h
  sent-P (some ds) w h = send-P ds w h

  -- A predicate on the manager that every mark of a trend and every count of a lost advisory keeps
  -- is kept by the whole of the trend alerts.
  pub maybe_alert_trend-P :
      (ts : List (Target × TrendRead)) (w : World) → P w.state → P (maybe_alert_trend ts w).1.state
  unfolding maybe_alert_trend
  maybe_alert_trend-P ts w h =
      let (cs, m) = collect ts w.state in
      sent-P cs (record w { state = m }) (collect-P ts w.state h)
