-- ===== src/Check/Certificate/Offered.antt =====
-- main.py, `_maybe_alert_cert_expiry`: a band is announced once, and offered until then.
use vigil_sre.Prelude.{
  String, Bool, true, false, ◌≡◌, refl, not, Option, none, some, List, if◌then◌else◌, is_some,
  arith, ap, ◌∙◌, Option-cases, Bool-cases, inl, inr,
}
use vigil_sre.Prelude.Int.{ℤ, ltb_ℤ}
use vigil_sre.Diagnostics.Cert.{
  cert_band, cert_alert_threshold, unless_alerted, is_cert_renewed, is_cert_healthy,
}
use vigil_sre.Diagnostics.Maintenance.{Window}
use vigil_sre.Notifiers.Kind.{is_status_alert_kind}
use vigil_sre.State.Manager.{
  StateManager, get_record, cert_alerted_days, cert_last_seen_days, cert_days,
}
use vigil_sre.State.Record.{Stamp, UrlState}
use vigil_sre.State.Manager.{new_manager}
use vigil_sre.State.Observe.{Observation, observe}
use vigil_sre.State.Survive.{observe-markers}
use vigil_sre.State.InStep.{InStep, perform-InStep, note_undelivered-InStep, get_record-new_manager}
use vigil_sre.Check.Url.Survives.{certificate-P}
use vigil_sre.State.Markers.{record_cert_alert}
use vigil_sre.State.Target.{machine-mark_cert}
use vigil_sre.State.Target.Machine.{Machine, step}
use vigil_sre.Check.World.{World, read_clock, with_state}
use vigil_sre.Check.Funnel.{alert_unless_muted}
use vigil_sre.Check.Funnel.Records.{gets_through, delivered-gets_through, advisory_keeps_records}
use vigil_sre.Check.Certificate.{
  stored_threshold, has_moved, cert_kind, alert_cert, cert_expiry_step, maybe_alert_cert_expiry,
}

-- Is a certificate with so many days left to be announced now?
abbrev pub due : ℤ → Option ℤ → Option ℤ → Bool
due days last_seen alerted =
    is_some (cert_alert_threshold (some days) (stored_threshold days last_seen alerted))

abbrev pub is_due : ℤ → StateManager → String → Bool
is_due days m url = due days (cert_last_seen_days m url) (cert_alerted_days m url)

-- What the record says of the certificate, where there is a record.
record Marked (m : StateManager) (url : String) (alerted seen : Option ℤ) : Type 0 where
  found : is_some (get_record m url) ≡ true
  band : cert_alerted_days m url ≡ alerted
  days : cert_last_seen_days m url ≡ seen

mark_cert-Marked :
    (url : String) (t : Option ℤ) (days : ℤ) (m : StateManager)
    → is_some (get_record m url) ≡ true
    → Marked (record_cert_alert url t (some days) m) url t (some days)
unfolding cert_alerted_days cert_last_seen_days step
mark_cert-Marked url t days m f =
    let e = ap (λ (v : Machine). v.current) (machine-mark_cert url m t (some days)) in
    ground (arith, e)

alert-Marked :
    (url : String) (days threshold : ℤ) (maintenance : Option (List Window)) (w : World)
    (alerted seen : Option ℤ)
    → Marked w.state url alerted seen
    → Marked
        (alert_unless_muted url
          (cert_days days threshold)
          (cert_kind threshold)
          maintenance
          w).1.state
        url
        alerted
        seen
unfolding cert_alerted_days cert_last_seen_days get_record is_status_alert_kind
alert-Marked url days threshold maintenance w alerted seen h =
    let e =
      advisory_keeps_records url (cert_days days threshold) (cert_kind threshold) maintenance w
        (ground arith) in
    ground (arith, e.0, h)

-- A later reading of the same certificate, in the same band.
module _ (days later : ℤ) (risen : ltb_ℤ days later ≡ false)
    (band : cert_band later ≡ cert_band days) where
  due-again :
      (stored : Option ℤ)
      → is_some (cert_alert_threshold (some days) stored) ≡ true
      → due later (some days) stored ≡ true
  unfolding cert_alert_threshold stored_threshold is_cert_renewed
  due-again stored d = ground arith

  due-done :
      (stored : Option ℤ) (threshold : ℤ)
      → cert_alert_threshold (some days) stored ≡ some threshold
      → due later (some days) (some threshold) ≡ false
  unfolding cert_alert_threshold stored_threshold is_cert_renewed unless_alerted
  due-done stored threshold e = ground arith

  due-unmoved :
      (last : ℤ) (alerted : Option ℤ)
      → has_moved days (some last) ≡ false
      → due days (some last) alerted ≡ true
      → due later (some last) alerted ≡ true
  unfolding cert_alert_threshold stored_threshold is_cert_renewed
  due-unmoved last alerted m d = ground arith

is_due-Marked :
    (days : ℤ) (m : StateManager) (url : String) (alerted seen : Option ℤ)
    → Marked m url alerted seen
    → is_due days m url ≡ due days seen alerted
is_due-Marked days m url alerted seen h = rw (h.band, h.days)

module _ (url : String) (days later threshold : ℤ) (maintenance : Option (List Window)) where
  alert_cert-due :
      (w : World) (alerted seen : Option ℤ)
      → Marked w.state url alerted seen
      → is_due later (alert_cert url days threshold maintenance w).state url ≡ (
          if gets_through maintenance w
          then due later (some days) (some threshold)
          else due later seen alerted)
  unfolding alert_cert
  alert_cert-due w alerted seen h =
      let kept = alert-Marked url days threshold maintenance w alerted seen h in
      let through =
        delivered-gets_through url (cert_days days threshold) (cert_kind threshold) maintenance w in
      elim (Bool-cases (gets_through maintenance w)) [
        | inl g ↦
            rw (through, g)
              (is_due-Marked later _ url _ _
                (mark_cert-Marked url (some threshold) days _ kept.found))
        | inr g ↦ rw (through, g) (is_due-Marked later _ url _ _ kept)
      ]

-- The step of a due alert, from the marks before it.
module _ (url : String) (days later : ℤ) (maintenance : Option (List Window))
    (risen : ltb_ℤ days later ≡ false) (band : cert_band later ≡ cert_band days) where
  -- The alert, from a world whose marks keep it due.
  sent-due :
      (w : World) (stored alerted seen : Option ℤ) (threshold : ℤ)
      → cert_alert_threshold (some days) stored ≡ some threshold
      → Marked w.state url alerted seen
      → due later seen alerted ≡ true
      → is_due later (alert_cert url days threshold maintenance w).state url
        ≡ not (gets_through maintenance w)
  sent-due w stored alerted seen threshold e h again = ground (
    arith,
    alert_cert-due url days later threshold maintenance w alerted seen h,
    due-done days later risen band stored threshold e,
  )

  threshold-unhealthy :
      (stored : Option ℤ) (threshold : ℤ)
      → cert_alert_threshold (some days) stored ≡ some threshold
      → is_cert_healthy (some days) ≡ false
  unfolding is_cert_healthy cert_alert_threshold cert_band unless_alerted
  threshold-unhealthy stored threshold e = ground arith

  -- The step, where a threshold is due.
  step-alert :
      (w : World) (stored seen : Option ℤ) (threshold : ℤ)
      → cert_alert_threshold (some days) stored ≡ some threshold
      → cert_expiry_step url days seen stored maintenance w
        ≡ alert_cert url days threshold maintenance (
            if has_moved days seen
            then with_state (record_cert_alert url stored (some days)) w
            else w)
  unfolding cert_expiry_step
  step-alert w stored seen threshold e = rw (threshold-unhealthy stored threshold e, e)

  step-due :
      (w : World) (alerted seen : Option ℤ)
      → Marked w.state url alerted seen
      → due days seen alerted ≡ true
      → is_due later
          (cert_expiry_step url days seen (stored_threshold days seen alerted) maintenance w).state
          url
        ≡ not (gets_through maintenance w)
  unfolding read_clock
  step-due w alerted seen h d =
      let stored = stored_threshold days seen alerted in
      let w1 = with_state (record_cert_alert url stored (some days)) w in
      elim (Option-cases (cert_alert_threshold (some days) stored)) [
        | inl e ↦ cc (e, d)
        | inr (threshold, e) ↦
            rw (step-alert w stored seen threshold e) (elim (Bool-cases (has_moved days seen)) [
              | inl v ↦ rw v (
                  sent-due w1 stored stored (some days) threshold e
                    (mark_cert-Marked url stored days w.state h.found)
                    (due-again days later risen band stored d))
              | inr v ↦
                  rw v (sent-due w stored alerted seen threshold e h (unmoved seen alerted v d))
            ])
      ]
    where
      unmoved :
          (seen alerted : Option ℤ)
          → has_moved days seen ≡ false
          → due days seen alerted ≡ true
          → due later seen alerted ≡ true
      unmoved none alerted v d = cc
      unmoved (some last) alerted v d = due-unmoved days later risen band last alerted v d

maybe_alert-due :
    (url : String) (days later : ℤ) (maintenance : Option (List Window)) (w : World)
    → is_some (get_record w.state url) ≡ true
    → is_due days w.state url ≡ true
    → ltb_ℤ days later ≡ false
    → cert_band later ≡ cert_band days
    → is_due later (maybe_alert_cert_expiry url (some days) maintenance w).state url
      ≡ not (gets_through maintenance w)
unfolding maybe_alert_cert_expiry
maybe_alert-due url days later maintenance w found d risen band =
    step-due url days later maintenance risen band w (cert_alerted_days w.state url)
      (cert_last_seen_days w.state url) (record { found = found; band = refl; days = refl }) d

-- What the next process makes of a certificate, after any observation of its own.
next_due :
    (url j : String) (days : ℤ) (s : Bool) (o : Observation) (now : Stamp) (m : StateManager)
    (faults : List Bool)
    → InStep m
    → m.write_failures ≡ 0
    → is_due days (observe s j o now (new_manager m.file faults)).1 url ≡ is_due days m url
unfolding cert_alerted_days cert_last_seen_days
next_due url j days s o now m faults i e =
    let marks = observe-markers s j o now (new_manager m.file faults) url in
    let same = get_record-new_manager m url faults i e in
    rw (marks.0, marks.1)
      (ap
        (λ (r : Option UrlState).
          due days (elim r as (λ _. Option ℤ) [ none ↦ none | some x ↦ x.cert_last_seen_days ])
            (elim r as (λ _. Option ℤ) [ none ↦ none | some x ↦ x.cert_alerted_days ]))
        same)

-- A due alert about a certificate of a target that has a record, in a run whose writes go through:
-- when the next process has loaded the state file and recorded any observation of any target, then at
-- a reading of no more days in the same band an alert is due exactly if this one was muted or reached
-- no channel.
pub certificate_offered :
    (url : String) (days later : ℤ) (maintenance : Option (List Window)) (w : World) (s : Bool)
    (j : String) (o : Observation) (now : Stamp) (faults : List Bool)
    → is_some (get_record w.state url) ≡ true
    → is_due days w.state url ≡ true
    → ltb_ℤ days later ≡ false
    → cert_band later ≡ cert_band days
    → InStep w.state
    → let m = (maybe_alert_cert_expiry url (some days) maintenance w).state in
      m.write_failures ≡ 0
      → is_due later (observe s j o now (new_manager m.file faults)).1 url
        ≡ not (gets_through maintenance w)
certificate_offered url days later maintenance w s j o now faults found d risen band i ok =
    next_due url j later s o now (maybe_alert_cert_expiry url (some days) maintenance w).state
      faults
      (certificate-P InStep (λ k c m h. perform-InStep k m h c) note_undelivered-InStep url
        (some days) maintenance w i)
      ok
    ∙ maybe_alert-due url days later maintenance w found d risen band
