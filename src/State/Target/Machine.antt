-- ===== src/State/Target/Machine.antt =====
-- One target on its own: its record, and whether its flag was armed by a transition of this process.
use vigil_sre.Prelude.{
  ℕ, String, Bool, true, false, ◌&&◌, Option, none, some, List, [], ◌∷◌, if◌then◌else◌, truthy,
  str_eq, get_or, ◌==◌,
}
use vigil_sre.Prelude.Int.{ℤ}
use vigil_sre.State.Record.{Stamp, UrlState, owed_an_alert, is_down}
use vigil_sre.State.Manager.{StateManager}
use vigil_sre.State.Setters.{or_else}
use vigil_sre.State.Markers.{
  ReminderClaim, outcome_record, same_flag, claim_of, record_alert_outcome,
  release_muted_status_alert, record_muted_alert, record_cert_alert, record_trend_alert,
  claim_reminder_step, release_reminder,
}
use vigil_sre.State.Observe.{Observation, observe, arms, observed}

-- A call of a method of the manager on one target.
pub data Call : Type 0 where
  observing : Bool → Observation → Stamp → Call
  outcome : Bool → Call
  release_mute : Call
  mark_muted : Bool → Call
  mark_cert : Option ℤ → Option ℤ → Call
  mark_trend : Option ℕ → Call
  claim : ℕ → Call
  unclaim : ReminderClaim → Call

unfoldable pub perform : String → Call → StateManager → StateManager
perform url (observing s o now) m = (observe s url o now m).1
perform url (outcome reached) m = record_alert_outcome url reached m
perform url release_mute m = release_muted_status_alert url m
perform url (mark_muted owed) m = record_muted_alert url owed m
perform url (mark_cert threshold last_seen) m = record_cert_alert url threshold last_seen m
perform url (mark_trend p95) m = record_trend_alert url p95 m
perform url (claim now) m = (claim_reminder_step url now m).1
perform url (unclaim c) m = release_reminder url c m

unfoldable pub perform_all : List (String × Call) → StateManager → StateManager
unfolding perform
perform_all [] m = m
perform_all ((url, c) ∷ cs) m = perform_all cs (perform url c m)

-- The calls on one target.
unfoldable pub calls_on : String → List (String × Call) → List Call
calls_on url [] = []
calls_on url ((k, c) ∷ cs) = let rest = calls_on url cs in if str_eq k url then c ∷ rest else rest

pub record Machine : Type 0 where
  pub current : Option UrlState
  pub armed : Bool

abbrev pub on_record : (UrlState → UrlState) → Option UrlState → Option UrlState
on_record f none = none
on_record f (some r) = some (f r)

-- `_arm`: an older debt leaves the set alone.
abbrev pub rearm : Bool → Option UrlState → Bool → Bool
rearm false previous armed = armed
rearm true previous armed = if owed_an_alert previous then armed else true

abbrev pub unmute : UrlState → UrlState
unmute r = if truthy r.alert_pending then record r { alert_pending = none } else r

abbrev pub muted_record : Bool → UrlState → UrlState
muted_record owed r =
    if same_flag (truthy r.muted_alert_owed) owed
    then r
    else record r { muted_alert_owed = if owed then some true else none }

abbrev pub claimed_record : ℕ → UrlState → UrlState
claimed_record now r =
    if is_down r.status
    then elim (claim_of r.last_changed (get_or r.remind_step 0) now) [
      | none ↦ r
      | some c ↦ record r { remind_step = some c.claimed_step }
    ]
    else r

abbrev pub unclaimed_record : ReminderClaim → UrlState → UrlState
unclaimed_record c r =
    if is_down r.status && get_or r.remind_step 0 == c.claimed_step
    then record r { remind_step = some c.previous_step }
    else r

unfoldable pub step : Call → Machine → Machine
step (observing s o now) v = record {
  current = some (observed s o v.current now);
  armed = rearm (arms s o v.current now) v.current v.armed;
}
step (outcome reached) v = record {
  current = on_record (outcome_record reached) v.current;
  armed = false;
}
step release_mute v =
    if v.armed then record { current = on_record unmute v.current; armed = false } else v
step (mark_muted owed) v = record v { current = on_record (muted_record owed) v.current }
step (mark_cert threshold last_seen) v = record v {
  current =
      on_record
        (λ r. record r {
          cert_alerted_days = threshold;
          cert_last_seen_days = or_else last_seen r.cert_last_seen_days;
        })
        v.current;
}
step (mark_trend p95) v = record v {
  current = on_record (λ r. record r { trend_alerted_p95_ms = p95 }) v.current;
}
step (claim now) v = record v { current = on_record (claimed_record now) v.current }
step (unclaim c) v = record v { current = on_record (unclaimed_record c) v.current }

unfoldable pub steps : List Call → Machine → Machine
unfolding step
steps [] v = v
steps (c ∷ cs) v = steps cs (step c v)
