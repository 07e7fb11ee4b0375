-- ===== src/Check/Url/Isolated.antt =====
-- main.py, `check_url`: the check of one target leaves every other target's record alone.
use vigil_sre.Prelude.{
  ℕ, String, ◌≡◌, refl, true, false, some, List, arith, str_eq, Option-cases, inl, inr, ◌∙◌,
}
use vigil_sre.Notifiers.Kind.{AlertKind, failure, degraded_kind, still_down}
use vigil_sre.State.Record.{at}
use vigil_sre.State.Manager.{Detail, text, down_for, status_alert, recovery_kind}
use vigil_sre.State.Setters.{set_up, set_degraded, set_down}
use vigil_sre.State.Markers.{ReminderClaim, claim_reminder_step}
use vigil_sre.State.Observe.{healthy, slow, failed, observe}
use vigil_sre.State.Target.{machine, machine-perform_other}
use vigil_sre.State.Target.Machine.{perform, observing, mark_muted, claim, unclaim}
use vigil_sre.Check.World.{World, read_clock}
use vigil_sre.Check.Funnel.{is_muted, alert_unless_muted, announce_if_owed}
use vigil_sre.Check.Probe
use vigil_sre.Check.Probe.{Measured, probe_with_backoff}
use vigil_sre.Check.Url.{
  Target, alert_transition, check_degraded, check_up, check_down, send_reminder, maybe_remind,
  repeat_down, check_result, check_url, recovery_text,
}
use vigil_sre.Check.Url.Kept.{Keeps, alert-Keeps, perform-Keeps, announce-Keeps, certificate-Keeps}

module _ (t : Target) (j : String) (ne : str_eq t.url j ≡ false) where
  transition-Keeps :
      (detail : Detail) (kind : AlertKind) (w : World)
      → Keeps j w (alert_transition t detail kind w)
  unfolding alert_transition perform
  transition-Keeps detail kind w =
      let (o, w1) = alert_unless_muted t.url detail kind t.maintenance w in
      perform-Keeps t.url j ne (mark_muted (is_muted o)) w1
      ∙ alert-Keeps t.url j ne detail kind t.maintenance w

  up-Keeps : (phases : Measured) (w : World) → Keeps j w (check_up t phases w)
  unfolding check_up perform observe read_clock
  up-Keeps phases w =
      let w1 = read_clock w in
      let (transitioned, m) = set_up true t.url (some phases.diagnostics) (at w1.now) w1.state in
      let w2 = record w1 { state = m } in
      let r = recovery_kind w.state t.url in
      let (kind, detail) = status_alert w2.state t.url r (recovery_text r) in
      let w3 = (alert_unless_muted t.url detail kind t.maintenance w2).1 in
      let seen =
        machine-perform_other t.url w.state j ne
          (observing true (healthy (some phases.diagnostics)) (at w1.now)) in
      ground (
        arith,
        seen,
        alert-Keeps t.url j ne detail kind t.maintenance w2,
        certificate-Keeps t.url j ne phases.tls_cert_days_left t.maintenance w3,
        certificate-Keeps t.url j ne phases.tls_cert_days_left t.maintenance w2,
      )

  degraded-Keeps :
      (reason : String) (phases : Measured) (w : World)
      → Keeps j w (check_degraded t reason phases w)
  unfolding check_degraded perform observe read_clock
  degraded-Keeps reason phases w =
      let w1 = read_clock w in
      let (transitioned, m) =
        set_degraded true t.url reason (some phases.diagnostics) (at w1.now) w1.state in
      let w2 = record w1 { state = m } in
      let (kind, detail) = status_alert w2.state t.url degraded_kind (text reason) in
      let sent = alert_transition t detail kind w2 in
      let owed = announce_if_owed t.url (text reason) degraded_kind t.maintenance w2 in
      let days = phases.tls_cert_days_left in
      ground (
        arith,
        machine-perform_other t.url w.state j ne
            (observing true (slow reason (some phases.diagnostics)) (at w1.now)),
        transition-Keeps detail kind w2,
        announce-Keeps t.url j ne (text reason) degraded_kind t.maintenance w2,
        certificate-Keeps t.url j ne days t.maintenance sent,
        certificate-Keeps t.url j ne days t.maintenance owed,
      )

  reminder-Keeps :
      (error : String) (c : ReminderClaim) (w : World) → Keeps j w (send_reminder t error c w)
  unfolding send_reminder perform
  reminder-Keeps error c w =
      let w1 =
        (alert_unless_muted t.url (down_for error c.elapsed_s) still_down t.maintenance w).1 in
      ground (
        arith,
        alert-Keeps t.url j ne (down_for error c.elapsed_s) still_down t.maintenance w,
        perform-Keeps t.url j ne (unclaim c) w1,
        perform-Keeps t.url j ne (mark_muted false) w1,
      )

  claim-Keeps :
      (now : ℕ) (w : World)
      → machine (claim_reminder_step t.url now w.state).1 j ≡ machine w.state j
  unfolding perform
  claim-Keeps now w = machine-perform_other t.url w.state j ne (claim now)

  remind-Keeps : (error : String) (w : World) → Keeps j w (maybe_remind t error w).1
  unfolding maybe_remind read_clock
  remind-Keeps error w =
      let w2 = read_clock (read_clock w) in
      let (c, m) = claim_reminder_step t.url w2.now w2.state in
      let w3 = record w2 { state = m } in
      elim (Option-cases c) [
        | inl e ↦ ground (arith, claim-Keeps w2.now w2)
        | inr (d, e) ↦ ground (arith, claim-Keeps w2.now w2, reminder-Keeps error d w3)
      ]

  repeat-Keeps : (error : String) (w : World) → Keeps j w (repeat_down t error w)
  unfolding repeat_down
  repeat-Keeps error w =
      let w1 = (maybe_remind t error w).1 in
      ground (
        arith,
        remind-Keeps error w,
        announce-Keeps t.url j ne (text error) failure t.maintenance w1,
      )

  down-Keeps : (error : String) (w : World) → Keeps j w (check_down t error w)
  unfolding check_down perform observe read_clock
  down-Keeps error w =
      let w1 = read_clock w in
      let m = (set_down true t.url error (at w1.now) w1.state).1 in
      let w2 = record w1 { state = m } in
      ground (
        arith,
        machine-perform_other t.url w.state j ne (observing true (failed error) (at w1.now)),
        transition-Keeps (text error) failure w2,
        repeat-Keeps error w2,
      )

  result-Keeps : (r : Probe.Attempt) (w : World) → Keeps j w (check_result t r w).1
  unfolding check_result read_clock
  result-Keeps (Probe.success phases) w = elim (Option-cases phases.reason) [
    | inl e ↦ ground (arith, up-Keeps phases (read_clock w))
    | inr (reason, e) ↦ ground (arith, degraded-Keeps reason phases (read_clock w))
  ]
  result-Keeps (Probe.failure error) w = down-Keeps error (read_clock w)
  result-Keeps Probe.crash w = refl

  -- The check of one target, on every path through its probe, its setters, its alerts, its
  -- reminders and its certificate, leaves the record and the armed flag of any other target as
  -- they were.
  pub check_url-Keeps :
      (script : List Probe.Attempt) (w : World) → Keeps j w (check_url t script w).1
  unfolding check_url
  check_url-Keeps script w = result-Keeps (probe_with_backoff script).result w
