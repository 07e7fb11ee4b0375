-- ===== src/Run/Trend/Episode.antt =====
-- main.py, `_maybe_alert_trend`: an episode is announced once, and offered until then.
use vigil_sre.Prelude.{
  ℕ, ◌<◌, String, Bool, true, false, ◌≡◌, refl, not, ◌&&◌, Option, some, List, [], ◌∷◌,
  if◌then◌else◌, is_some, get_or, arith, ap, Bool-cases, inl, inr,
}
use vigil_sre.Diagnostics.Trend.{Window, latency_trend}
use vigil_sre.Notifiers.Kind.{trend_degrading, is_status_alert_kind}
use vigil_sre.State.Manager.{
  StateManager, Detail, get_record, trend_alerted_p95, current_status, p95_change,
}
use vigil_sre.State.Markers.{record_trend_alert}
use vigil_sre.State.Target.{machine-mark_trend}
use vigil_sre.State.Target.Machine.{Machine, step}
use vigil_sre.Check.World.{World}
use vigil_sre.Check.Funnel.{alert_unless_muted}
use vigil_sre.Check.Funnel.Records.{advisory_keeps_records, gets_through, delivered-gets_through}
use vigil_sre.Check.Url.{Target}
use vigil_sre.Run.Trend.{
  TrendRead, windows, Candidate, is_degrading, already_announced, judge, collect, send_trends,
  maybe_alert_trend,
}

-- Is a worse p95 of the target to be announced now?
abbrev pub drift_due : String → Window → Window → StateManager → Bool
drift_due url recent previous m =
    is_degrading (latency_trend recent previous).verdict
    && not (already_announced (trend_alerted_p95 m url) (get_or recent.p95 0))

-- The p95 of a degrading trend is not zero.
degrading-pos :
    (recent previous : Window)
    → is_degrading (latency_trend recent previous).verdict ≡ true
    → 0 < get_or recent.p95 0
unfolding latency_trend
degrading-pos recent previous h = ground arith

-- What the record says of the trend, where there is a record.
record Announced (m : StateManager) (url : String) (p95 : Option ℕ) : Type 0 where
  found : is_some (get_record m url) ≡ true
  mark : trend_alerted_p95 m url ≡ p95

mark_trend-Announced :
    (url : String) (p95 : Option ℕ) (m : StateManager)
    → is_some (get_record m url) ≡ true
    → Announced (record_trend_alert url p95 m) url p95
unfolding trend_alerted_p95 step
mark_trend-Announced url p95 m f =
    let e = ap (λ (v : Machine). v.current) (machine-mark_trend url m p95) in ground (arith, e)

alert-Announced :
    (t : Target) (detail : Detail) (w : World) (p95 : Option ℕ)
    → Announced w.state t.url p95
    → Announced (alert_unless_muted t.url detail trend_degrading t.maintenance w).1.state t.url p95
unfolding trend_alerted_p95 get_record is_status_alert_kind
alert-Announced t detail w p95 h =
    let e = advisory_keeps_records t.url detail trend_degrading t.maintenance w refl in
    ground (arith, e.0, h)

module _ (t : Target) (recent previous : Window) where
  abbrev candidate : Candidate
  candidate = record {
    target = t;
    previous_p95 = get_or previous.p95 0;
    recent_p95 = get_or recent.p95 0;
  }

  abbrev pub reads : List (Target × TrendRead)
  reads = (t, windows (some recent) (some previous)) ∷ []

  collect-due :
      (m : StateManager)
      → t.trend_alerts ≡ true
      → is_some (get_record m t.url) ≡ true
      → drift_due t.url recent previous m ≡ true
      → collect reads m ≡ (some (candidate ∷ []), m)
  unfolding collect judge current_status
  collect-due m on found d = ground arith

  just_announced :
      (m : StateManager)
      → drift_due t.url recent previous m ≡ true
      → (is_degrading (latency_trend recent previous).verdict
          && not (already_announced (some (get_or recent.p95 0)) (get_or recent.p95 0)))
        ≡ false
  unfolding already_announced
  just_announced m d = elim (Bool-cases (is_degrading (latency_trend recent previous).verdict)) [
    | inl e ↦ ground (arith, degrading-pos recent previous e)
    | inr e ↦ cc e
  ]

  -- What the alert about a drift makes of the mark.
  send-due :
      (w : World)
      → is_some (get_record w.state t.url) ≡ true
      → drift_due t.url recent previous w.state ≡ true
      → let (sent, w') = send_trends (candidate ∷ []) w in
        (sent ≡ (if gets_through t.maintenance w then 1 else 0))
        × (drift_due t.url recent previous w'.state ≡ not (gets_through t.maintenance w))
  unfolding send_trends
  send-due w found d =
      let detail = p95_change (get_or previous.p95 0) (get_or recent.p95 0) in
      let through = delivered-gets_through t.url detail trend_degrading t.maintenance w in
      let kept =
        alert-Announced t detail w (trend_alerted_p95 w.state t.url)
          (record { found = found; mark = refl }) in
      let marked =
        mark_trend-Announced t.url (some (get_or recent.p95 0))
          (alert_unless_muted t.url detail trend_degrading t.maintenance w).1.state kept.found in
      elim (Bool-cases (gets_through t.maintenance w)) [
        | inl g ↦ rw (through, g) (refl, rw marked.mark (just_announced w.state d))
        | inr g ↦ rw (through, g) (refl, rw kept.mark d)
      ]

maybe_alert_trend-collect :
    (targets : List (Target × TrendRead)) (w : World) (cs : List Candidate) (m : StateManager)
    → collect targets w.state ≡ (some cs, m)
    → maybe_alert_trend targets w ≡ send_trends cs (record w { state = m })
unfolding maybe_alert_trend
maybe_alert_trend-collect targets w cs m e =
    rw (maybe_alert_trend, ap (λ q. q.0) e, ap (λ q. q.1) e)

-- In a monitor of one target whose p95 has drifted and is to be announced, one alert is counted as
-- sent if it reaches a channel; and by the marks that are left the same windows are to be announced
-- again exactly if it was muted or reached no channel.
pub trend_offered :
    (t : Target) (recent previous : Window) (w : World)
    → t.trend_alerts ≡ true
    → is_some (get_record w.state t.url) ≡ true
    → drift_due t.url recent previous w.state ≡ true
    → let (sent, w') = maybe_alert_trend (reads t recent previous) w in
      (sent ≡ (if gets_through t.maintenance w then 1 else 0))
      × (drift_due t.url recent previous w'.state ≡ not (gets_through t.maintenance w))
trend_offered t recent previous w on found d =
    rw
      (maybe_alert_trend-collect (reads t recent previous) w _ _
        (collect-due t recent previous w.state on found d))
      (send-due t recent previous w found d)
