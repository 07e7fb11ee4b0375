-- ===== src/State/Target/Own.antt =====
-- Each call steps the machine of its target.
use vigil_sre.Prelude.{
  ℕ, String, get_or, ◌≡◌, Bool, true, Option, none, some, arith, if◌then◌else◌, Option-cases, inl,
  inr,
}
use vigil_sre.Prelude.Int.{ℤ}
use vigil_sre.State.Record.{Stamp}
use vigil_sre.State.Manager.{StateManager, get_record}
use vigil_sre.State.Setters.{or_else}
use vigil_sre.State.Markers.{
  disarm, ReminderClaim, outcome_record, record_alert_outcome, release_muted_status_alert,
  record_muted_alert, record_cert_alert, record_trend_alert, claim_reminder_step, release_reminder,
  claim_of,
}
use vigil_sre.State.Observe.{Observation, observe, observe_lem, observed, arms}
use vigil_sre.State.Target.Machine.{
  Call, observing, outcome, release_mute, mark_muted, mark_cert, mark_trend, claim, unclaim,
  perform, step,
}
use vigil_sre.State.Target.Slots.{machine, machine-save, machine-commit, machine-disarm}

module _ (url : String) (m : StateManager) where
  pub machine-mark_muted :
      (owed : Bool)
      → machine (record_muted_alert url owed m) url ≡ step (mark_muted owed) (machine m url)
  unfolding record_muted_alert step
  machine-mark_muted owed = elim (Option-cases (get_record m url)) [
    | inl e ↦ ground arith
    | inr (r, e) ↦ ground (
      arith,
      machine-save url (record r { muted_alert_owed = if owed then some true else none }) m,
    )
  ]

  pub machine-mark_trend :
      (p95 : Option ℕ)
      → machine (record_trend_alert url p95 m) url ≡ step (mark_trend p95) (machine m url)
  unfolding record_trend_alert step
  machine-mark_trend p95 = elim (Option-cases (get_record m url)) [
    | inl e ↦ ground arith
    | inr (r, e) ↦ ground (arith, machine-save url (record r { trend_alerted_p95_ms = p95 }) m)
  ]

  pub machine-mark_cert :
      (t seen : Option ℤ)
      → machine (record_cert_alert url t seen m) url ≡ step (mark_cert t seen) (machine m url)
  unfolding record_cert_alert step
  machine-mark_cert t seen = elim (Option-cases (get_record m url)) [
    | inl e ↦ ground arith
    | inr (r, e) ↦ ground (
      arith,
      machine-save url
          (record r {
            cert_alerted_days = t;
            cert_last_seen_days = or_else seen r.cert_last_seen_days;
          })
          m,
    )
  ]

  pub machine-outcome :
      (reached : Bool)
      → machine (record_alert_outcome url reached m) url ≡ step (outcome reached) (machine m url)
  unfolding record_alert_outcome step
  machine-outcome reached = elim (Option-cases (get_record m url)) [
    | inl e ↦ ground (arith, machine-disarm url m)
    | inr (r, e) ↦
        ground
          (arith, machine-save url (outcome_record reached r) (disarm url m), machine-disarm url m)
  ]

  pub machine-release_mute :
      machine (release_muted_status_alert url m) url ≡ step release_mute (machine m url)
  unfolding release_muted_status_alert step
  machine-release_mute = elim (Option-cases (get_record m url)) [
    | inl e ↦ ground (arith, machine-disarm url m)
    | inr (r, e) ↦ ground (
      arith,
      machine-save url (record r { alert_pending = none }) (disarm url m),
      machine-disarm url m,
    )
  ]

  pub machine-claim :
      (now : ℕ) → machine (claim_reminder_step url now m).1 url ≡ step (claim now) (machine m url)
  unfolding claim_reminder_step step
  machine-claim now = elim (Option-cases (get_record m url)) [
    | inl e ↦ ground arith
    | inr (r, e) ↦ elim (Option-cases (claim_of r.last_changed (get_or r.remind_step 0) now)) [
      | inl n ↦ ground arith
      | inr (c, n) ↦
          ground (arith, machine-save url (record r { remind_step = some c.claimed_step }) m)
    ]
  ]

  pub machine-unclaim :
      (c : ReminderClaim)
      → machine (release_reminder url c m) url ≡ step (unclaim c) (machine m url)
  unfolding release_reminder step
  machine-unclaim c = elim (Option-cases (get_record m url)) [
    | inl e ↦ ground arith
    | inr (r, e) ↦
        ground (arith, machine-save url (record r { remind_step = some c.previous_step }) m)
  ]

  machine-observing :
      (s : Bool) (o : Observation) (now : Stamp)
      → machine (observe s url o now m).1 url ≡ step (observing s o now) (machine m url)
  unfolding step
  machine-observing s o now = rw (observe_lem s url o now m) (
      machine-commit url (observed s o (get_record m url) now) m (arms s o (get_record m url) now)
        (get_record m url))

  pub machine-perform : (c : Call) → machine (perform url c m) url ≡ step c (machine m url)
  unfolding perform
  machine-perform (observing s o now) = machine-observing s o now
  machine-perform (outcome reached) = machine-outcome reached
  machine-perform release_mute = machine-release_mute
  machine-perform (mark_muted owed) = machine-mark_muted owed
  machine-perform (mark_cert threshold last_seen) = machine-mark_cert threshold last_seen
  machine-perform (mark_trend p95) = machine-mark_trend p95
  machine-perform (claim now) = machine-claim now
  machine-perform (unclaim c) = machine-unclaim c
