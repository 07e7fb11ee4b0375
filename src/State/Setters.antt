-- ===== src/State/Setters.antt =====
-- main.py: `set_up`, `set_degraded` and `set_down` of `StateManager`.
-- `now` is what `_utc_now` reads.
use vigil_sre.Prelude.{
  ℕ, ◌+◌, String, Bool, true, false, not, ◌&&◌, ◌||◌, Option, none, some, if◌then◌else◌, ltb,
  truthy, get_or, is_some,
}
use vigil_sre.State.Record.{
  Status, up, degraded, down, is_up, is_degraded, is_down, Stamp, whole, UrlState, new_record,
  owed_an_alert, carry_forward,
}
use vigil_sre.State.Performance.{Extra, performance_decision, notified_of}
use vigil_sre.State.Manager.{StateManager, write_sync, put_record, get_record, arm_set, arm_record}

abbrev pub down_confirmations : ℕ
down_confirmations = 2

abbrev pub or_else {ℓ} : {A : Type ℓ} → Option A → Option A → Option A
or_else none d = d
or_else (some a) d = some a

-- `record.update(policy)`
unfoldable pub update : UrlState → Option Extra → UrlState
update r none = r
update r (some e) = record r {
  notification_status = some e.notification_status;
  slow_runs = some (whole e.slow_runs);
  healthy_runs = some (whole e.healthy_runs);
  missed_outage = or_else e.missed_outage r.missed_outage;
  alert_pending = or_else e.alert_pending r.alert_pending;
}

-- `previous is None or previous["status"] != …`
abbrev pub changed_from : (Status → Bool) → Option UrlState → Bool
changed_from same none = true
changed_from same (some r) = not (same r.status)

-- `now if changed else previous["last_changed"]`
abbrev pub changed_stamp : (Status → Bool) → Option UrlState → Stamp → Stamp
changed_stamp same none now = now
changed_stamp same (some r) now = if same r.status then r.last_changed else now

-- What a setter decides: whether to alert, and the fields of the policy.
abbrev pub Decision : Type 0
Decision = Bool × Option Extra

unfoldable pub up_decision : Bool → Option UrlState → Stamp → Decision
up_decision false previous now =
    (is_some previous && (changed_from is_up previous || owed_an_alert previous), none)
up_decision true previous now =
    let (alert, policy) = performance_decision previous up now in (alert, some policy)

unfoldable pub up_record : Option UrlState → Option String → Stamp → UrlState
up_record previous diagnostics now =
    record (new_record up now (changed_stamp is_up previous now) "") { diagnostics = diagnostics }

unfoldable pub degraded_decision : Bool → Option UrlState → Stamp → Decision
degraded_decision false previous now =
    (changed_from is_degraded previous || owed_an_alert previous, none)
degraded_decision true previous now =
    let (alert, policy) = performance_decision previous degraded now in (alert, some policy)

-- `muted_alert_owed` survives only within the same degradation.
abbrev pub still_muted : Option UrlState → Option Bool
still_muted none = none
still_muted (some r) = if is_degraded r.status && truthy r.muted_alert_owed then some true else none

unfoldable pub degraded_record : Option UrlState → String → Option String → Stamp → UrlState
degraded_record previous reason diagnostics now =
    record (new_record degraded now (changed_stamp is_degraded previous now) reason) {
      diagnostics = diagnostics;
      muted_alert_owed = still_muted previous;
    }

-- The record that a setter leaves.
unfoldable pub stored : Option UrlState → UrlState → Decision → UrlState
unfolding carry_forward update
stored previous r (alert, policy) =
    let r' = update (carry_forward previous r) policy in if alert then arm_record r' else r'

-- The end of every setter: the record, the set of `_arm`, and the one write of both.
unfoldable pub commit : Bool → String → Option UrlState → UrlState → StateManager → StateManager
commit armed url previous r m =
    let m' = put_record url r m in write_sync (if armed then arm_set url previous m' else m')

unfoldable pub store :
    String → Option UrlState → UrlState → Decision → StateManager → Bool × StateManager
unfolding stored commit
store url previous r d m = (d.0, commit d.0 url previous (stored previous r d) m)

unfoldable pub set_up : Bool → String → Option String → Stamp → StateManager → Bool × StateManager
unfolding up_decision up_record store
set_up stabilize url diagnostics now m =
    let previous = get_record m url in
    store url previous (up_record previous diagnostics now) (up_decision stabilize previous now) m

unfoldable pub set_degraded :
    Bool → String → String → Option String → Stamp → StateManager → Bool × StateManager
unfolding degraded_decision degraded_record store
set_degraded stabilize url reason diagnostics now m =
    let previous = get_record m url in
    store url previous (degraded_record previous reason diagnostics now)
      (degraded_decision stabilize previous now) m

-- `if stabilize: self._state[url].update(notification_status=notified, slow_runs=0, healthy_runs=0)`
unfoldable pub stabilized : Bool → Status → UrlState → UrlState
stabilized false notified r = r
stabilized true notified r = record r {
  notification_status = some notified;
  slow_runs = some (whole 0);
  healthy_runs = some (whole 0);
}

-- The record of a first failure, of one more failure while DOWN, of a failure that is still
-- unconfirmed, and of the failure that confirms an outage.
unfoldable pub first_failure : String → Stamp → UrlState
first_failure error now = record (new_record down now now error) { consecutive_failures = some 1 }

unfoldable pub repeat_failure : UrlState → String → Stamp → UrlState
unfolding carry_forward
repeat_failure previous error now =
    let r =
      carry_forward (some previous) (record (new_record down now previous.last_changed error) {
        consecutive_failures = some (get_or previous.consecutive_failures 1 + 1);
        remind_step = some (get_or previous.remind_step 0);
      }) in
    if truthy previous.muted_alert_owed then record r { muted_alert_owed = some true } else r

unfoldable pub pending_failure : UrlState → String → Stamp → UrlState
pending_failure previous error now = record previous {
  last_checked = now;
  last_error = error;
  consecutive_failures = some (get_or previous.consecutive_failures 0 + 1);
}

unfoldable pub confirmed_failure : UrlState → String → Stamp → UrlState
unfolding carry_forward
confirmed_failure previous error now =
    carry_forward (some previous) (record (new_record down now now error) {
      consecutive_failures = some (get_or previous.consecutive_failures 0 + 1);
    })

-- The branches of `set_down` on the previous record: whether an alert is owed, whether `_arm` is
-- called, and the record without and with it.
unfoldable pub down_step : Option UrlState → String → Stamp → Bool × Bool × UrlState
unfolding first_failure repeat_failure pending_failure confirmed_failure owed_an_alert
down_step none error now = (true, true, first_failure error now)
down_step (some previous) error now =
    if is_down previous.status
    then (owed_an_alert (some previous), false, repeat_failure previous error now)
    else if ltb (get_or previous.consecutive_failures 0 + 1) down_confirmations
    then (false, false, pending_failure previous error now)
    else (true, true, confirmed_failure previous error now)

-- The record that `set_down` leaves.
unfoldable pub down_stored : Bool → Option UrlState → String → Stamp → UrlState
unfolding down_step stabilized notified_of
down_stored stabilize previous error now =
    let (alert, armed, r) = down_step previous error now in
    stabilized stabilize (notified_of previous) (if armed then arm_record r else r)

unfoldable pub set_down : Bool → String → String → Stamp → StateManager → Bool × StateManager
unfolding down_step down_stored commit
set_down stabilize url error now m =
    let previous = get_record m url in
    let (alert, armed, r) = down_step previous error now in
    (alert, commit armed url previous (down_stored stabilize previous error now) m)
