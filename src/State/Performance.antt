-- ===== src/State/Performance.antt =====
-- main.py, `StateManager._performance_decision`: which performance changes are announced.
use vigil_sre.Prelude.{
  ℕ, ◌+◌, ◌-◌, min, Bool, true, false, not, ◌&&◌, ◌||◌, Option, none, some, leb, ◌==◌,
  if◌then◌else◌, truthy, get_or, is_some, str_eq,
}
use vigil_sre.State.Record.{
  Status, up, other, is_up, is_degraded, is_down, Stamp, at, garbled, Count, whole, odd, Outage,
  UrlState, owed_an_alert,
}

abbrev pub degraded_confirmations : ℕ
degraded_confirmations = 3

abbrev pub performance_recovery_confirmations : ℕ
performance_recovery_confirmations = 2

abbrev pub performance_max_gap_s : ℕ
performance_max_gap_s = 300

-- `old.get("notification_status", …)`: a record that predates the field is read as announced,
-- unless an alert is still owed.
unfoldable pub notified_of : Option UrlState → Status
unfolding owed_an_alert
notified_of none = up
notified_of (some r) =
    get_or r.notification_status
      (if not (owed_an_alert (some r)) && not (truthy r.muted_alert_owed) then r.status else up)

-- `if notified not in (UP, DEGRADED, DOWN): notified = UP`
abbrev pub known_status : Status → Status
known_status (other _) = up
known_status s = s

-- `0 <= age <= PERFORMANCE_MAX_GAP_S`, false where a text does not parse
unfoldable pub within_gap : Stamp → Stamp → Bool
within_gap (at now) (at seen) = leb seen now && leb (now - seen) performance_max_gap_s
within_gap (at now) (garbled _) = false
within_gap (garbled _) _ = false

unfoldable pub continuous : Option UrlState → Stamp → Bool
unfolding within_gap
continuous none now = false
continuous (some old) now =
    within_gap now old.last_checked && get_or old.consecutive_failures 0 == 0

-- The inner function `streak`, given `old.get(key, 0)` and `continuous and same`.
unfoldable pub streak : Count → Bool → ℕ → ℕ
streak (whole n) true ceiling = min (n + 1) ceiling
streak (whole n) false ceiling = 1
streak (odd _) _ ceiling = 1

abbrev pub status_test : (Status → Bool) → Option UrlState → Bool
status_test test none = false
status_test test (some r) = test r.status

abbrev pub slow_count : Option UrlState → Count
slow_count none = whole 0
slow_count (some r) = get_or r.slow_runs (whole 0)

abbrev pub healthy_count : Option UrlState → Count
healthy_count none = whole 0
healthy_count (some r) = get_or r.healthy_runs (whole 0)

unfoldable pub slow_streak : Option UrlState → Status → Stamp → ℕ
unfolding streak continuous
slow_streak previous status now =
    if is_degraded status
    then streak (slow_count previous) (continuous previous now && status_test is_degraded previous)
        degraded_confirmations
    else 0

unfoldable pub healthy_streak : Option UrlState → Status → Stamp → ℕ
unfolding streak continuous
healthy_streak previous status now =
    if is_up status
    then streak (healthy_count previous) (continuous previous now && status_test is_up previous)
        performance_recovery_confirmations
    else 0

-- Python's `or` on texts: the empty text is false.
abbrev pub or_stamp : Stamp → Stamp → Stamp
or_stamp (at n) other_stamp = at n
or_stamp (garbled s) other_stamp = if str_eq s "" then other_stamp else garbled s

-- `{"start": old.get("last_changed") or old.get("last_checked") or now, "end": now}`
abbrev pub outage_of : UrlState → Stamp → Outage
outage_of old now = record {
  start = or_stamp old.last_changed (or_stamp old.last_checked now);
  end = now;
}

-- The outage that is still to be announced: the one just ending, or the one carried.
unfoldable pub missed_of : Option UrlState → Status → Stamp → Option Outage
missed_of none notified now = none
missed_of (some old) notified now =
    if is_down old.status && not (is_down notified)
    then some (outage_of old now)
    else old.missed_outage

-- The fields that the decision writes over the new record; `none` leaves a field as it is.
pub record Extra : Type 0 where
  pub notification_status : Status
  pub slow_runs : ℕ
  pub healthy_runs : ℕ
  pub missed_outage : Option Outage
  pub alert_pending : Option Bool

-- The last part of the method: is a performance announcement due?
unfoldable pub performance_due : Option UrlState → Status → Status → ℕ → ℕ → Bool
unfolding owed_an_alert
performance_due previous status notified slow healthy =
    if is_degraded status
    then (not (is_degraded notified) && leb degraded_confirmations slow)
      || (owed_an_alert previous && status_test is_degraded previous)
    else (is_degraded notified && leb performance_recovery_confirmations healthy)
      || is_down notified
      || (owed_an_alert previous && status_test is_up previous)

unfoldable pub performance_decision : Option UrlState → Status → Stamp → Bool × Extra
unfolding notified_of slow_streak healthy_streak missed_of performance_due owed_an_alert
performance_decision previous status now =
    let notified = known_status (notified_of previous) in
    let slow = slow_streak previous status now in
    let healthy = healthy_streak previous status now in
    let missed = missed_of previous notified now in
    let extra : Extra = record {
      notification_status = notified;
      slow_runs = slow;
      healthy_runs = healthy;
      missed_outage = none;
      alert_pending = none;
    } in
    let due = performance_due previous status notified slow healthy in
    if is_some missed && (status_test is_down previous || owed_an_alert previous)
    then (true, record extra { missed_outage = missed })
    else if is_down notified
    then (true, extra)
    else if due
    then (true, extra)
    else (false, record extra { alert_pending = some false })
