-- ===== src/Notifiers/Kind.antt =====
-- notifiers.py, `AlertKind`, and main.py, `_STATUS_ALERT_KINDS`.
use vigil_sre.Prelude.{String, Bool, true, false}

pub data AlertKind : Type 0 where
  failure recovery performance_recovery unannounced_outage still_down trend_degrading : AlertKind
  degraded_kind cert_expiring_warn cert_expiring_crit : AlertKind

-- `kind.value`
unfoldable pub kind_value : AlertKind → String
kind_value failure = "failure"
kind_value recovery = "recovery"
kind_value performance_recovery = "performance_recovery"
kind_value unannounced_outage = "unannounced_outage"
kind_value degraded_kind = "degraded"
kind_value cert_expiring_warn = "cert_expiring_warn"
kind_value cert_expiring_crit = "cert_expiring_crit"
kind_value still_down = "still_down"
kind_value trend_degrading = "trend_degrading"

-- `kind in _STATUS_ALERT_KINDS`
unfoldable pub is_status_alert_kind : AlertKind → Bool
is_status_alert_kind failure = true
is_status_alert_kind recovery = true
is_status_alert_kind performance_recovery = true
is_status_alert_kind degraded_kind = true
is_status_alert_kind unannounced_outage = true
is_status_alert_kind still_down = false
is_status_alert_kind trend_degrading = false
is_status_alert_kind cert_expiring_warn = false
is_status_alert_kind cert_expiring_crit = false
