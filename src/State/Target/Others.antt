-- ===== src/State/Target/Others.antt =====
-- Each call leaves the machines of the other targets alone.
use vigil_sre.Prelude.{
  String, get_or, ◌≡◌, Bool, true, false, none, some, arith, if◌then◌else◌, str_eq, Option-cases,
  inl, inr,
}
use vigil_sre.State.Record.{Stamp}
use vigil_sre.State.Manager.{StateManager, get_record}
use vigil_sre.State.Setters.{or_else}
use vigil_sre.State.Markers.{
  disarm, outcome_record, record_alert_outcome, release_muted_status_alert, record_muted_alert,
  record_cert_alert, record_trend_alert, claim_reminder_step, release_reminder, claim_of,
}
use vigil_sre.State.Observe.{Observation, observe, observe_lem, observed, arms}
use vigil_sre.State.Target.Machine.{
  Call, observing, outcome, release_mute, mark_muted, mark_cert, mark_trend, claim, unclaim,
  perform,
}
use vigil_sre.State.Target.Slots.{
  machine, machine-save_other, machine-commit_other, machine-disarm_other,
}

module _ (url : String) (m : StateManager) (j : String) (ne : str_eq url j ≡ false) where
  machine-observing_other :
      (s : Bool) (o : Observation) (now : Stamp) → machine (observe s url o now m).1 j ≡ machine m j
  machine-observing_other s o now = rw (observe_lem s url o now m) (
      machine-commit_other url (observed s o (get_record m url) now) m
        (arms s o (get_record m url) now) (get_record m url) j ne)

  pub machine-perform_other : (c : Call) → machine (perform url c m) j ≡ machine m j
  unfolding perform record_muted_alert record_trend_alert record_cert_alert record_alert_outcome
      release_muted_status_alert claim_reminder_step release_reminder
  machine-perform_other (observing s o now) = machine-observing_other s o now
  machine-perform_other (outcome reached) = elim (Option-cases (get_record m url)) [
    | inl e ↦ ground (arith, machine-disarm_other url m j ne)
    | inr (r, e) ↦ ground (
      arith,
      machine-save_other url (outcome_record reached r) (disarm url m) j ne,
      machine-disarm_other url m j ne,
    )
  ]
  machine-perform_other release_mute = elim (Option-cases (get_record m url)) [
    | inl e ↦ ground (arith, machine-disarm_other url m j ne)
    | inr (r, e) ↦ ground (
      arith,
      machine-save_other url (record r { alert_pending = none }) (disarm url m) j ne,
      machine-disarm_other url m j ne,
    )
  ]
  machine-perform_other (mark_muted owed) = elim (Option-cases (get_record m url)) [
    | inl e ↦ ground arith
    | inr (r, e) ↦ ground (
      arith,
      machine-save_other url (record r { muted_alert_owed = if owed then some true else none }) m j
          ne,
    )
  ]
  machine-perform_other (mark_cert t seen) = elim (Option-cases (get_record m url)) [
    | inl e ↦ ground arith
    | inr (r, e) ↦ ground (
      arith,
      machine-save_other url
          (record r {
            cert_alerted_days = t;
            cert_last_seen_days = or_else seen r.cert_last_seen_days;
          })
          m j ne,
    )
  ]
  machine-perform_other (mark_trend p95) = elim (Option-cases (get_record m url)) [
    | inl e ↦ ground arith
    | inr (r, e) ↦
        ground (arith, machine-save_other url (record r { trend_alerted_p95_ms = p95 }) m j ne)
  ]
  machine-perform_other (claim now) = elim (Option-cases (get_record m url)) [
    | inl e ↦ ground arith
    | inr (r, e) ↦ elim (Option-cases (claim_of r.last_changed (get_or r.remind_step 0) now)) [
      | inl n ↦ ground arith
      | inr (c, n) ↦
          ground
            (arith, machine-save_other url (record r { remind_step = some c.claimed_step }) m j ne)
    ]
  ]
  machine-perform_other (unclaim c) = elim (Option-cases (get_record m url)) [
    | inl e ↦ ground arith
    | inr (r, e) ↦
        ground
          (arith, machine-save_other url (record r { remind_step = some c.previous_step }) m j ne)
  ]
