-- ===== src/Check/Certificate.antt =====
-- main.py, `_maybe_alert_cert_expiry`.
pub mod Offered
use vigil_sre.Prelude.{
  String, Bool, true, not, ◌&&◌, Option, none, some, List, if◌then◌else◌, is_some,
}
use vigil_sre.Prelude.Int.{ℤ, eqb_ℤ}
use vigil_sre.Diagnostics.Cert.{
  cert_crit_days, cert_alert_threshold, is_cert_renewed, is_cert_healthy,
}
use vigil_sre.Diagnostics.Maintenance.{Window}
use vigil_sre.Notifiers.Kind.{AlertKind, cert_expiring_warn, cert_expiring_crit}
use vigil_sre.State.Manager.{cert_alerted_days, cert_last_seen_days, cert_days}
use vigil_sre.State.Markers.{record_cert_alert}
use vigil_sre.Check.World.{World, with_state}
use vigil_sre.Check.Funnel.{is_delivered, alert_unless_muted}

-- The stored threshold, forgotten if the certificate was renewed.
unfoldable pub stored_threshold : ℤ → Option ℤ → Option ℤ → Option ℤ
stored_threshold days last_seen stored =
    if is_cert_renewed (some days) last_seen && is_some stored then none else stored

-- `days != last_seen`
abbrev pub has_moved : ℤ → Option ℤ → Bool
has_moved days none = true
has_moved days (some last_seen) = not (eqb_ℤ days last_seen)

abbrev pub cert_kind : ℤ → AlertKind
cert_kind threshold =
    if eqb_ℤ threshold cert_crit_days then cert_expiring_crit else cert_expiring_warn

-- The alert, and the band recorded once it reached a channel.
unfoldable pub alert_cert : String → ℤ → ℤ → Option (List Window) → World → World
alert_cert url days threshold maintenance w =
    let (outcome, w') =
      alert_unless_muted url (cert_days days threshold) (cert_kind threshold) maintenance w in
    if is_delivered outcome
    then with_state (record_cert_alert url (some threshold) (some days)) w'
    else w'

-- The method from `is_cert_healthy` on.
unfoldable pub cert_expiry_step :
    String → ℤ → Option ℤ → Option ℤ → Option (List Window) → World → World
unfolding alert_cert
cert_expiry_step url days last_seen stored maintenance w =
    if is_cert_healthy (some days)
    then with_state (record_cert_alert url none (some days)) w
    else let w' =
        if has_moved days last_seen
        then with_state (record_cert_alert url stored (some days)) w
        else w in
      elim (cert_alert_threshold (some days) stored) [
        | none ↦ w'
        | some threshold ↦ alert_cert url days threshold maintenance w'
      ]

unfoldable pub maybe_alert_cert_expiry : String → Option ℤ → Option (List Window) → World → World
unfolding cert_expiry_step stored_threshold
maybe_alert_cert_expiry url none maintenance w = w
maybe_alert_cert_expiry url (some days) maintenance w =
    let last_seen = cert_last_seen_days w.state url in
    let stored = stored_threshold days last_seen (cert_alerted_days w.state url) in
    cert_expiry_step url days last_seen stored maintenance w
