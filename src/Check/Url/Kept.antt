-- ===== src/Check/Url/Kept.antt =====
-- main.py: what an alert, a marker and a certificate of one target leave of another's record.
use vigil_sre.Prelude.{
  String, ◌≡◌, refl, Bool, false, Option, none, some, List, arith, str_eq, Option-cases, inl, inr,
}
use vigil_sre.Prelude.Int.{ℤ}
use vigil_sre.Diagnostics.Maintenance.{Window}
use vigil_sre.Diagnostics.Cert.{cert_alert_threshold}
use vigil_sre.Notifiers.Kind.{AlertKind}
use vigil_sre.Notifiers.Dispatch.{dispatch_alert}
use vigil_sre.State.Manager.{get_record, StateManager, Detail, cert_days, note_undelivered_advisory}
use vigil_sre.State.Target.{machine, machine-perform_other}
use vigil_sre.State.Target.Machine.{Call, perform, outcome, release_mute, mark_muted, mark_cert}
use vigil_sre.Check.World.{World, read_clock, with_state}
use vigil_sre.Check.Funnel.{
  alert_unless_muted, announce_if_owed, after_dispatch, note_outcome, note_mute,
}
use vigil_sre.Check.Certificate.{alert_cert, cert_expiry_step, maybe_alert_cert_expiry, cert_kind}

-- The world `w'` has the record and the armed flag of `j` that `w` has.
abbrev pub Keeps : String → World → World → Type 0
Keeps j w w' = machine w'.state j ≡ machine w.state j

module _ (url j : String) (ne : str_eq url j ≡ false) where
  note_outcome-other :
      (kind : AlertKind) (sent : Bool) (m : StateManager)
      → machine (note_outcome url kind sent m) j ≡ machine m j
  unfolding note_outcome note_undelivered_advisory perform get_record
  note_outcome-other kind sent m = ground (arith, machine-perform_other url m j ne (outcome sent))

  note_mute-other :
      (kind : AlertKind) (m : StateManager) → machine (note_mute url kind m) j ≡ machine m j
  unfolding note_mute perform
  note_mute-other kind m = ground (arith, machine-perform_other url m j ne release_mute)

  pub alert-Keeps :
      (detail : Detail) (kind : AlertKind) (maintenance : Option (List Window)) (w : World)
      → Keeps j w (alert_unless_muted url detail kind maintenance w).1
  unfolding alert_unless_muted after_dispatch read_clock
  alert-Keeps detail kind maintenance w = ground (
    arith,
    note_outcome-other kind (dispatch_alert w.channels w.circuits).delivered w.state,
    note_mute-other kind w.state,
  )

  pub perform-Keeps : (c : Call) (w : World) → Keeps j w (with_state (perform url c) w)
  perform-Keeps c w = machine-perform_other url w.state j ne c

  pub announce-Keeps :
      (detail : Detail) (kind : AlertKind) (maintenance : Option (List Window)) (w : World)
      → Keeps j w (announce_if_owed url detail kind maintenance w)
  unfolding announce_if_owed perform read_clock
  announce-Keeps detail kind maintenance w =
      let w1 = read_clock w in
      let w2 = (alert_unless_muted url detail kind maintenance w1).1 in
      ground (arith, alert-Keeps detail kind maintenance w1, perform-Keeps (mark_muted false) w2)

  alert_cert-Keeps :
      (days threshold : ℤ) (maintenance : Option (List Window)) (w : World)
      → Keeps j w (alert_cert url days threshold maintenance w)
  unfolding alert_cert perform
  alert_cert-Keeps days threshold maintenance w =
      let w1 =
        (alert_unless_muted url (cert_days days threshold) (cert_kind threshold) maintenance w).1 in
      ground (
        arith,
        alert-Keeps (cert_days days threshold) (cert_kind threshold) maintenance w,
        perform-Keeps (mark_cert (some threshold) (some days)) w1,
      )

  cert_expiry-Keeps :
      (days : ℤ) (seen stored : Option ℤ) (maintenance : Option (List Window)) (w : World)
      → Keeps j w (cert_expiry_step url days seen stored maintenance w)
  unfolding cert_expiry_step perform
  cert_expiry-Keeps days seen stored maintenance w =
      let w1 = with_state (perform url (mark_cert stored (some days))) w in
      elim (Option-cases (cert_alert_threshold (some days) stored)) [
        | inl e ↦ ground (
          arith,
          perform-Keeps (mark_cert none (some days)) w,
          perform-Keeps (mark_cert stored (some days)) w,
        )
        | inr (threshold, e) ↦ ground (
          arith,
          perform-Keeps (mark_cert none (some days)) w,
          perform-Keeps (mark_cert stored (some days)) w,
          alert_cert-Keeps days threshold maintenance w1,
          alert_cert-Keeps days threshold maintenance w,
        )
      ]

  pub certificate-Keeps :
      (days : Option ℤ) (maintenance : Option (List Window)) (w : World)
      → Keeps j w (maybe_alert_cert_expiry url days maintenance w)
  unfolding maybe_alert_cert_expiry
  certificate-Keeps none maintenance w = refl
  certificate-Keeps (some days) maintenance w = cert_expiry-Keeps days _ _ maintenance w
