-- ===== src/State/Record.antt =====
-- main.py: the record that state.json keeps for one target, and what survives a status change.
use vigil_sre.Prelude.{ℕ, String, Bool, true, false, Option, none, some, truthy}
use vigil_sre.Prelude.Int.{ℤ}

-- The text under `status` and `notification_status`; `other` is any text but the three.
pub data Status : Type 0 where
  up degraded down : Status
  other : String → Status

abbrev pub is_up : Status → Bool
is_up up = true
is_up _ = false

abbrev pub is_degraded : Status → Bool
is_degraded degraded = true
is_degraded _ = false

abbrev pub is_down : Status → Bool
is_down down = true
is_down _ = false

-- A timestamp's text: `at n` is what `_utc_now` prints n seconds after the epoch, and `garbled`
-- a text that the date parsers refuse.
pub data Stamp : Type 0 where
  at : ℕ → Stamp
  garbled : String → Stamp

-- The stored value of a streak: `whole` is an `int` that is at least 0.
pub data Count : Type 0 where
  whole : ℕ → Count
  odd : String → Count

pub record Outage : Type 0 where
  pub start : Stamp
  pub end : Stamp

-- A field that may be missing is an option. A breakdown is persisted and never read back here: it
-- is kept as its text. A p95 is in thousandths of a millisecond.
pub record UrlState : Type 0 where
  pub status : Status
  pub last_checked : Stamp
  pub last_changed : Stamp
  pub last_error : String
  pub diagnostics : Option String
  pub consecutive_failures : Option ℕ
  pub cert_alerted_days : Option ℤ
  pub cert_last_seen_days : Option ℤ
  pub alert_pending : Option Bool
  pub remind_step : Option ℕ
  pub notification_status : Option Status
  pub slow_runs : Option Count
  pub healthy_runs : Option Count
  pub muted_alert_owed : Option Bool
  pub missed_outage : Option Outage
  pub trend_alerted_p95_ms : Option ℕ

-- `UrlState(status=…, last_checked=…, last_changed=…, last_error=…)`
abbrev pub new_record : Status → Stamp → Stamp → String → UrlState
new_record s checked changed error = record {
  status = s;
  last_checked = checked;
  last_changed = changed;
  last_error = error;
  diagnostics = none;
  consecutive_failures = none;
  cert_alerted_days = none;
  cert_last_seen_days = none;
  alert_pending = none;
  remind_step = none;
  notification_status = none;
  slow_runs = none;
  healthy_runs = none;
  muted_alert_owed = none;
  missed_outage = none;
  trend_alerted_p95_ms = none;
}

unfoldable pub owed_an_alert : Option UrlState → Bool
owed_an_alert none = false
owed_an_alert (some previous) = truthy previous.alert_pending

-- `if field_name in previous: record[field_name] = previous[field_name]`
abbrev pub carry_field {ℓ} : {A : Type ℓ} → Option A → Option A → Option A
carry_field none mine = mine
carry_field (some a) mine = some a

unfoldable pub carry_forward : Option UrlState → UrlState → UrlState
carry_forward none r = r
carry_forward (some previous) r = record r {
  cert_alerted_days = carry_field previous.cert_alerted_days r.cert_alerted_days;
  cert_last_seen_days = carry_field previous.cert_last_seen_days r.cert_last_seen_days;
  alert_pending = carry_field previous.alert_pending r.alert_pending;
  trend_alerted_p95_ms = carry_field previous.trend_alerted_p95_ms r.trend_alerted_p95_ms;
  notification_status = carry_field previous.notification_status r.notification_status;
  slow_runs = carry_field previous.slow_runs r.slow_runs;
  healthy_runs = carry_field previous.healthy_runs r.healthy_runs;
}
