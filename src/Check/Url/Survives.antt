-- ===== src/Check/Url/Survives.antt =====
-- main.py, `check_url`: what every call of the state manager keeps, the check of a target keeps.
use vigil_sre.Prelude.{
  String, Bool, true, false, not, ◌&&◌, Option, none, some, List, if◌then◌else◌, is_some,
  Option-cases, inl, inr,
}
use vigil_sre.Prelude.Int.{ℤ}
use vigil_sre.Diagnostics.Maintenance.{Window, in_maintenance}
use vigil_sre.Diagnostics.Cert.{cert_alert_threshold, is_cert_healthy}
use vigil_sre.Notifiers.Kind.{AlertKind, failure, degraded_kind, still_down, is_status_alert_kind}
use vigil_sre.Notifiers.Dispatch.{dispatch_alert}
use vigil_sre.State.Record.{at}
use vigil_sre.State.Manager.{
  StateManager, Detail, text, down_for, status_alert, recovery_kind, cert_days,
  note_undelivered_advisory, muted_alert_owed, current_status,
}
use vigil_sre.State.Setters.{set_up, set_degraded, set_down}
use vigil_sre.State.Markers.{ReminderClaim, claim_reminder_step}
use vigil_sre.State.Observe.{healthy, slow, failed, observe}
use vigil_sre.State.Target.Machine.{
  Call, perform, observing, outcome, release_mute, mark_muted, mark_cert, claim, unclaim,
}
use vigil_sre.Check.World.{World, read_clock}
use vigil_sre.Check.Funnel.{
  AlertOutcome, is_muted, is_delivered, alert_unless_muted, announce_if_owed, after_dispatch,
  note_outcome, note_mute,
}
use vigil_sre.Check.Certificate.{
  alert_cert, cert_expiry_step, maybe_alert_cert_expiry, cert_kind, has_moved,
}
use vigil_sre.Check.Probe
use vigil_sre.Check.Probe.{Measured, probe_with_backoff}
use vigil_sre.Check.Url.{
  Target, alert_transition, check_degraded, check_up, check_down, send_reminder, maybe_remind,
  repeat_down, check_result, check_success, check_url, recovery_text, is_confirmed_down,
}

-- Both branches of a test have a property.
pub either {ℓ} :
    {A : Type ℓ} (Q : A → Type 0) (c : Bool) {x y : A} → Q x → Q y → Q (if c then x else y)
either Q true p q = p
either Q false p q = q

module _ (P : StateManager → Type 0)
    (call : (url : String) (c : Call) (m : StateManager) → P m → P (perform url c m))
    (lost : (kind : AlertKind) (m : StateManager)
      → P m
      → P (note_undelivered_advisory kind m)) where
  note_outcome-P :
      (url : String) (kind : AlertKind) (sent : Bool) (m : StateManager)
      → P m
      → P (note_outcome url kind sent m)
  unfolding note_outcome perform
  note_outcome-P url kind sent m h =
      either P (is_status_alert_kind kind) (call url (outcome sent) m h)
        (either P sent h (lost kind m h))

  note_mute-P :
      (url : String) (kind : AlertKind) (m : StateManager) → P m → P (note_mute url kind m)
  unfolding note_mute perform
  note_mute-P url kind m h = either P (is_status_alert_kind kind) (call url release_mute m h) h

  pub alert-P :
      (url : String) (detail : Detail) (kind : AlertKind) (maintenance : Option (List Window))
      (w : World)
      → P w.state
      → P (alert_unless_muted url detail kind maintenance w).1.state
  unfolding alert_unless_muted after_dispatch read_clock
  alert-P url detail kind maintenance w h =
      either (λ (q : AlertOutcome × World). P q.1.state)
        (is_some (in_maintenance maintenance (read_clock w).now)) (note_mute-P url kind w.state h)
        (note_outcome-P url kind (dispatch_alert w.channels w.circuits).delivered w.state h)

  announce-P :
      (url : String) (detail : Detail) (kind : AlertKind) (maintenance : Option (List Window))
      (w : World)
      → P w.state
      → P (announce_if_owed url detail kind maintenance w).state
  unfolding announce_if_owed perform read_clock
  announce-P url detail kind maintenance w h =
      let w1 = read_clock w in
      let (o, w2) = alert_unless_muted url detail kind maintenance w1 in
      let h2 = alert-P url detail kind maintenance w1 h in
      either (λ (v : World). P v.state) (not (muted_alert_owed w.state url)) h
        (either (λ (v : World). P v.state) (is_some (in_maintenance maintenance w1.now)) h
          (either (λ (v : World). P v.state) (is_muted o) h2
            (call url (mark_muted false) w2.state h2)))

  alert_cert-P :
      (url : String) (days threshold : ℤ) (maintenance : Option (List Window)) (w : World)
      → P w.state
      → P (alert_cert url days threshold maintenance w).state
  unfolding alert_cert perform
  alert_cert-P url days threshold maintenance w h =
      let (o, w1) =
        alert_unless_muted url (cert_days days threshold) (cert_kind threshold) maintenance w in
      let h1 = alert-P url (cert_days days threshold) (cert_kind threshold) maintenance w h in
      either (λ (v : World). P v.state) (is_delivered o)
        (call url (mark_cert (some threshold) (some days)) w1.state h1) h1

  offer-P :
      (url : String) (days : ℤ) (threshold : Option ℤ) (maintenance : Option (List Window))
      (w : World)
      → P w.state
      → P
          (elim threshold as (λ _. World) [
            | none ↦ w
            | some t ↦ alert_cert url days t maintenance w
          ]).state
  offer-P url days none maintenance w h = h
  offer-P url days (some t) maintenance w h = alert_cert-P url days t maintenance w h

  cert_expiry-P :
      (url : String) (days : ℤ) (seen stored : Option ℤ) (maintenance : Option (List Window))
      (w : World)
      → P w.state
      → P (cert_expiry_step url days seen stored maintenance w).state
  unfolding cert_expiry_step perform
  cert_expiry-P url days seen stored maintenance w h =
      either (λ (v : World). P v.state) (is_cert_healthy (some days))
        (call url (mark_cert none (some days)) w.state h)
        (offer-P url days (cert_alert_threshold (some days) stored) maintenance _ (
          either (λ (v : World). P v.state) (has_moved days seen)
            (call url (mark_cert stored (some days)) w.state h) h))

  pub certificate-P :
      (url : String) (days : Option ℤ) (maintenance : Option (List Window)) (w : World)
      → P w.state
      → P (maybe_alert_cert_expiry url days maintenance w).state
  unfolding maybe_alert_cert_expiry
  certificate-P url none maintenance w h = h
  certificate-P url (some days) maintenance w h = cert_expiry-P url days _ _ maintenance w h

  module _ (t : Target) where
    transition-P :
        (detail : Detail) (kind : AlertKind) (w : World)
        → P w.state
        → P (alert_transition t detail kind w).state
    unfolding alert_transition perform
    transition-P detail kind w h =
        let (o, w1) = alert_unless_muted t.url detail kind t.maintenance w in
        call t.url (mark_muted (is_muted o)) w1.state (alert-P t.url detail kind t.maintenance w h)

    up-P : (phases : Measured) (w : World) → P w.state → P (check_up t phases w).state
    unfolding check_up perform observe read_clock
    up-P phases w h =
        let w1 = read_clock w in
        let (transitioned, m) = set_up true t.url (some phases.diagnostics) (at w1.now) w1.state in
        let w2 = record w1 { state = m } in
        let r = recovery_kind w.state t.url in
        let (kind, detail) = status_alert w2.state t.url r (recovery_text r) in
        let h2 =
          call t.url (observing true (healthy (some phases.diagnostics)) (at w1.now)) w.state h in
        certificate-P t.url phases.tls_cert_days_left t.maintenance _ (
          either (λ (v : World). P v.state) transitioned
            (alert-P t.url detail kind t.maintenance w2 h2) h2)

    degraded-P :
        (reason : String) (phases : Measured) (w : World)
        → P w.state
        → P (check_degraded t reason phases w).state
    unfolding check_degraded perform observe read_clock
    degraded-P reason phases w h =
        let w1 = read_clock w in
        let (transitioned, m) =
          set_degraded true t.url reason (some phases.diagnostics) (at w1.now) w1.state in
        let w2 = record w1 { state = m } in
        let (kind, detail) = status_alert w2.state t.url degraded_kind (text reason) in
        let h2 =
          call t.url (observing true (slow reason (some phases.diagnostics)) (at w1.now)) w.state
            h in
        certificate-P t.url phases.tls_cert_days_left t.maintenance _ (
          either (λ (v : World). P v.state) transitioned (transition-P detail kind w2 h2)
            (announce-P t.url (text reason) degraded_kind t.maintenance w2 h2))

    reminder-P :
        (error : String) (c : ReminderClaim) (w : World)
        → P w.state
        → P (send_reminder t error c w).state
    unfolding send_reminder perform
    reminder-P error c w h =
        let (o, w1) =
          alert_unless_muted t.url (down_for error c.elapsed_s) still_down t.maintenance w in
        let h1 = alert-P t.url (down_for error c.elapsed_s) still_down t.maintenance w h in
        either (λ (v : World). P v.state) (not (is_delivered o))
          (call t.url (unclaim c) w1.state h1)
          (either (λ (v : World). P v.state) (muted_alert_owed w1.state t.url)
            (call t.url (mark_muted false) w1.state h1) h1)

    claimed-P :
        (error : String) (c : Option ReminderClaim) (w : World)
        → P w.state
        → P
            (elim c as (λ _. Bool × World) [
              | none ↦ (false, w)
              | some d ↦ (true, send_reminder t error d w)
            ]).1.state
    claimed-P error none w h = h
    claimed-P error (some d) w h = reminder-P error d w h

    remind-P : (error : String) (w : World) → P w.state → P (maybe_remind t error w).1.state
    unfolding maybe_remind perform read_clock
    remind-P error w h =
        let w2 = read_clock (read_clock w) in
        let (c, m) = claim_reminder_step t.url w2.now w2.state in
        either (λ (q : Bool × World). P q.1.state) (not t.remind) h
          (either (λ (q : Bool × World). P q.1.state)
            (is_some (in_maintenance t.maintenance (read_clock w).now)) h
            (claimed-P error c (record w2 { state = m }) (call t.url (claim w2.now) w.state h)))

    repeat-P : (error : String) (w : World) → P w.state → P (repeat_down t error w).state
    unfolding repeat_down
    repeat-P error w h =
        let (attempted, w1) = maybe_remind t error w in
        let h1 = remind-P error w h in
        either (λ (v : World). P v.state)
          (not attempted && is_confirmed_down (current_status w1.state t.url))
          (announce-P t.url (text error) failure t.maintenance w1 h1) h1

    down-P : (error : String) (w : World) → P w.state → P (check_down t error w).state
    unfolding check_down perform observe read_clock
    down-P error w h =
        let w1 = read_clock w in
        let (transitioned, m) = set_down true t.url error (at w1.now) w1.state in
        let w2 = record w1 { state = m } in
        let h2 = call t.url (observing true (failed error) (at w1.now)) w.state h in
        either (λ (v : World). P v.state) transitioned (transition-P (text error) failure w2 h2)
          (repeat-P error w2 h2)

    result-P : (r : Probe.Attempt) (w : World) → P w.state → P (check_result t r w).1.state
    unfolding check_result read_clock
    result-P (Probe.success phases) w h = elim (Option-cases phases.reason) [
      | inl e ↦ rw (check_success, e) (up-P phases (read_clock w) h)
      | inr (r, e) ↦ rw (check_success, e) (degraded-P r phases (read_clock w) h)
    ]
    result-P (Probe.failure error) w h = down-P error (read_clock w) h
    result-P Probe.crash w h = h

    -- A predicate on the manager that every call on a target and every count of a lost advisory
    -- keeps is kept by the check of a target.
    pub check_url-P :
        (script : List Probe.Attempt) (w : World) → P w.state → P (check_url t script w).1.state
    unfolding check_url
    check_url-P script w h = result-P (probe_with_backoff script).result w h
