-- ===== src/Check/Url.antt =====
-- main.py, `check_url`: one target, from its probe to its alerts.
pub mod Kept
pub mod Isolated
pub mod Survives
use vigil_sre.Prelude.{
  String, Bool, true, false, not, ◌&&◌, Option, none, some, List, if◌then◌else◌, is_some,
}
use vigil_sre.Diagnostics.Maintenance.{Window, in_maintenance}
use vigil_sre.Notifiers.Kind.{AlertKind, failure, degraded_kind, still_down, performance_recovery}
use vigil_sre.State.Record.{Status, up, degraded, down, is_down, Stamp, at}
use vigil_sre.State.Manager.{
  Detail, text, down_for, current_status, muted_alert_owed, status_alert, recovery_kind,
}
use vigil_sre.State.Setters.{set_up, set_degraded, set_down}
use vigil_sre.State.Markers.{
  record_muted_alert, ReminderClaim, claim_reminder_step, release_reminder,
}
use vigil_sre.Check.World.{World, read_clock, with_state}
use vigil_sre.Check.Funnel.{is_delivered, is_muted, alert_unless_muted, announce_if_owed}
use vigil_sre.Check.Probe
use vigil_sre.Check.Probe.{Measured, probe_with_backoff}
use vigil_sre.Check.Certificate.{maybe_alert_cert_expiry}

pub record CheckOutcome : Type 0 where
  pub url : String
  pub status : Status
  pub error : Option String
  pub checked_at : Stamp

-- What `check_url` takes of a target besides its probe's settings.
pub record Target : Type 0 where
  pub url : String
  pub remind : Bool
  pub trend_alerts : Bool
  pub maintenance : Option (List Window)

-- The alert of a transition to DEGRADED or DOWN, and whether a window muted it.
unfoldable pub alert_transition : Target → Detail → AlertKind → World → World
alert_transition t detail kind w =
    let (outcome, w') = alert_unless_muted t.url detail kind t.maintenance w in
    with_state (record_muted_alert t.url (is_muted outcome)) w'

-- The branch of a degraded probe.
unfoldable pub check_degraded : Target → String → Measured → World → World
unfolding alert_transition
check_degraded t reason phases w =
    let w1 = read_clock w in
    let (transitioned, m) =
      set_degraded true t.url reason (some phases.diagnostics) (at w1.now) w1.state in
    let w2 = record w1 { state = m } in
    let (kind, detail) = status_alert w2.state t.url degraded_kind (text reason) in
    let w3 =
      if transitioned
      then alert_transition t detail kind w2
      else announce_if_owed t.url (text reason) degraded_kind t.maintenance w2 in
    maybe_alert_cert_expiry t.url phases.tls_cert_days_left t.maintenance w3

abbrev pub is_performance_recovery : AlertKind → Bool
is_performance_recovery performance_recovery = true
is_performance_recovery _ = false

abbrev pub recovery_text : AlertKind → Detail
recovery_text kind =
    text (if is_performance_recovery kind then "Performance is normal" else "Service is UP")

-- The branch of a healthy probe.
unfoldable pub check_up : Target → Measured → World → World
check_up t phases w =
    let recovery = recovery_kind w.state t.url in
    let w1 = read_clock w in
    let (transitioned, m) = set_up true t.url (some phases.diagnostics) (at w1.now) w1.state in
    let w2 = record w1 { state = m } in
    let (kind, detail) = status_alert w2.state t.url recovery (recovery_text recovery) in
    let w3 =
      if transitioned then (alert_unless_muted t.url detail kind t.maintenance w2).1 else w2 in
    maybe_alert_cert_expiry t.url phases.tls_cert_days_left t.maintenance w3

-- A claimed reminder: handed back unless it was delivered.
unfoldable pub send_reminder : Target → String → ReminderClaim → World → World
send_reminder t error claim w =
    let (outcome, w') =
      alert_unless_muted t.url (down_for error claim.elapsed_s) still_down t.maintenance w in
    if not (is_delivered outcome)
    then with_state (release_reminder t.url claim) w'
    else if muted_alert_owed w'.state t.url
    then with_state (record_muted_alert t.url false) w'
    else w'

-- Whether a reminder was attempted, for a target that wants them.
unfoldable pub maybe_remind : Target → String → World → Bool × World
unfolding send_reminder
maybe_remind t error w =
    if not t.remind
    then (false, w)
    else let w1 = read_clock w in
      if is_some (in_maintenance t.maintenance w1.now)
      then (false, w1)
      else let w2 = read_clock w1 in
        let (claim, m) = claim_reminder_step t.url w2.now w2.state in
        let w3 = record w2 { state = m } in
        elim claim [ none ↦ (false, w3) | some c ↦ (true, send_reminder t error c w3) ]

abbrev pub is_confirmed_down : Option Status → Bool
is_confirmed_down none = false
is_confirmed_down (some s) = is_down s

-- The rest of a failed check that was no transition.
unfoldable pub repeat_down : Target → String → World → World
unfolding maybe_remind
repeat_down t error w =
    let (attempted, w') = maybe_remind t error w in
    if not attempted && is_confirmed_down (current_status w'.state t.url)
    then announce_if_owed t.url (text error) failure t.maintenance w'
    else w'

-- The branch of a failed probe.
unfoldable pub check_down : Target → String → World → World
unfolding alert_transition repeat_down
check_down t error w =
    let w1 = read_clock w in
    let (transitioned, m) = set_down true t.url error (at w1.now) w1.state in
    let w2 = record w1 { state = m } in
    if transitioned then alert_transition t (text error) failure w2 else repeat_down t error w2

-- `state.current_status(url) or STATUS_DOWN`
abbrev pub status_or_down : Option Status → Status
status_or_down none = down
status_or_down (some s) = s

unfoldable pub check_success : Target → Measured → World → CheckOutcome × World
unfolding check_degraded check_up
check_success t phases w = elim phases.reason [
  | some reason ↦ (
    record { url = t.url; status = degraded; error = some reason; checked_at = at w.now },
    check_degraded t reason phases w,
  )
  | none ↦ (
    record { url = t.url; status = up; error = none; checked_at = at w.now },
    check_up t phases w,
  )
]

unfoldable pub check_failure : Target → String → World → CheckOutcome × World
unfolding check_down
check_failure t error w =
    let w' = check_down t error w in
    (
      record {
        url = t.url;
        status = status_or_down (current_status w'.state t.url);
        error = some error;
        checked_at = at w.now;
      },
      w',
    )

-- What the probe came to; `none` is an exception that leaves the call.
unfoldable pub check_result : Target → Probe.Attempt → World → Option CheckOutcome × World
unfolding check_success check_failure
check_result t (Probe.success phases) w =
    let (o, w') = check_success t phases (read_clock w) in (some o, w')
check_result t (Probe.failure error) w =
    let (o, w') = check_failure t error (read_clock w) in (some o, w')
check_result t Probe.crash w = (none, w)

unfoldable pub check_url : Target → List Probe.Attempt → World → Option CheckOutcome × World
unfolding check_result
check_url t script w = check_result t (probe_with_backoff script).result w
