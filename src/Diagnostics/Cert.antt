-- ===== src/Diagnostics/Cert.antt =====
-- diagnostics.py: when an expiring certificate is announced, and when that is forgotten.
use vigil_sre.Prelude.{Bool, false, Option, none, some, not, if◌then◌else◌}
use vigil_sre.Prelude.Int.{ℤ, pos, ltb_ℤ}

abbrev pub cert_crit_days : ℤ
cert_crit_days = pos 7

abbrev pub cert_warn_days : ℤ
cert_warn_days = pos 30

-- The threshold of the band that `days` stands in; none for a healthy certificate.
unfoldable pub cert_band : ℤ → Option ℤ
cert_band days =
    if ltb_ℤ days cert_crit_days
    then some cert_crit_days
    else if ltb_ℤ days cert_warn_days
    then some cert_warn_days
    else none

-- `already_alerted_at is None or threshold < already_alerted_at`
unfoldable pub unless_alerted : Option ℤ → Option ℤ → Option ℤ
unless_alerted none already = none
unless_alerted (some threshold) none = some threshold
unless_alerted (some threshold) (some already) =
    if ltb_ℤ threshold already then some threshold else none

unfoldable pub cert_alert_threshold : Option ℤ → Option ℤ → Option ℤ
unfolding cert_band unless_alerted
cert_alert_threshold none already_alerted_at = none
cert_alert_threshold (some days_left) already_alerted_at =
    unless_alerted (cert_band days_left) already_alerted_at

unfoldable pub is_cert_renewed : Option ℤ → Option ℤ → Bool
is_cert_renewed (some days_left) (some last_seen_days) = ltb_ℤ last_seen_days days_left
is_cert_renewed (some days_left) none = false
is_cert_renewed none _ = false

unfoldable pub is_cert_healthy : Option ℤ → Bool
is_cert_healthy none = false
is_cert_healthy (some days_left) = not (ltb_ℤ days_left cert_warn_days)
