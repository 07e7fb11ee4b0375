-- ===== src/State/Markers.antt =====
-- main.py, `StateManager`: the outcome of an alert, the markers, the reminders and the pruning.
use vigil_sre.Prelude.{
  ℕ, ◌-◌, String, Bool, true, false, not, Option, none, some, List, [], ◌∷◌, leb, ◌==◌,
  if◌then◌else◌, truthy, get_or,
}
use vigil_sre.Prelude.Dict.{contains}
use vigil_sre.Prelude.Int.{ℤ}
use vigil_sre.Diagnostics.Reminders.{reminders_due}
use vigil_sre.State.Record.{up, is_down, Stamp, at, garbled, UrlState}
use vigil_sre.State.Setters.{or_else}
use vigil_sre.State.Manager.{Targets, StateManager, write_sync, put_record, get_record, set_discard}

-- The record that `record_alert_outcome` leaves.
unfoldable pub outcome_record : Bool → UrlState → UrlState
outcome_record true r = record r {
  notification_status = some r.status;
  missed_outage = none;
  alert_pending = some false;
}
outcome_record false r = record r {
  notification_status = or_else r.notification_status (some up);
  alert_pending = some true;
}

abbrev pub disarm : String → StateManager → StateManager
disarm url m = record m { armed_by_transition = set_discard url m.armed_by_transition }

unfoldable pub record_alert_outcome : String → Bool → StateManager → StateManager
unfolding outcome_record
record_alert_outcome url delivered m =
    let m' = disarm url m in
    elim (get_record m url) [
      | none ↦ m'
      | some r ↦ write_sync (put_record url (outcome_record delivered r) m')
    ]

unfoldable pub release_muted_status_alert : String → StateManager → StateManager
release_muted_status_alert url m =
    if not (contains m.armed_by_transition url)
    then m
    else let m' = disarm url m in
      elim (get_record m url) [
        | none ↦ m'
        | some r ↦
            if truthy r.alert_pending
            then write_sync (put_record url (record r { alert_pending = none }) m')
            else m'
      ]

-- Equality of the flag's truth with `owed`.
abbrev pub same_flag : Bool → Bool → Bool
same_flag true b = b
same_flag false b = not b

unfoldable pub record_muted_alert : String → Bool → StateManager → StateManager
record_muted_alert url owed m = elim (get_record m url) [
  | none ↦ m
  | some r ↦
      if same_flag (truthy r.muted_alert_owed) owed
      then m
      else write_sync
          (put_record url (record r { muted_alert_owed = if owed then some true else none }) m)
]

unfoldable pub record_cert_alert : String → Option ℤ → Option ℤ → StateManager → StateManager
record_cert_alert url threshold_days last_seen_days m = elim (get_record m url) [
  | none ↦ m
  | some r ↦ write_sync (
      put_record url
        (record r {
          cert_alerted_days = threshold_days;
          cert_last_seen_days = or_else last_seen_days r.cert_last_seen_days;
        })
        m)
]

unfoldable pub record_trend_alert : String → Option ℕ → StateManager → StateManager
record_trend_alert url recent_p95_ms m = elim (get_record m url) [
  | none ↦ m
  | some r ↦ write_sync (put_record url (record r { trend_alerted_p95_ms = recent_p95_ms }) m)
]

-- The elapsed time is in seconds.
pub record ReminderClaim : Type 0 where
  pub elapsed_s : ℕ
  pub previous_step : ℕ
  pub claimed_step : ℕ

-- The claim on a record that is DOWN: none if its start does not parse or nothing is owed.
unfoldable pub claim_of : Stamp → ℕ → ℕ → Option ReminderClaim
claim_of (garbled _) step now = none
claim_of (at started) step now =
    let due = reminders_due (now - started) in
    if leb due step
    then none
    else some (record { elapsed_s = now - started; previous_step = step; claimed_step = due })

unfoldable pub claim_reminder_step : String → ℕ → StateManager → Option ReminderClaim × StateManager
unfolding claim_of
claim_reminder_step url now m = elim (get_record m url) [
  | none ↦ (none, m)
  | some r ↦
      if not (is_down r.status)
      then (none, m)
      else elim (claim_of r.last_changed (get_or r.remind_step 0) now) [
        | none ↦ (none, m)
        | some c ↦
            (some c, write_sync (put_record url (record r { remind_step = some c.claimed_step }) m))
      ]
]

unfoldable pub claim_reminder : String → ℕ → StateManager → Option ℕ × StateManager
unfolding claim_reminder_step
claim_reminder url now m =
    let (claim, m') = claim_reminder_step url now m in
    (elim claim [ none ↦ none | some c ↦ some c.elapsed_s ], m')

unfoldable pub release_reminder : String → ReminderClaim → StateManager → StateManager
release_reminder url claim m = elim (get_record m url) [
  | none ↦ m
  | some r ↦
      if not (is_down r.status)
      then m
      else if not (get_or r.remind_step 0 == claim.claimed_step)
      then m
      else write_sync (put_record url (record r { remind_step = some claim.previous_step }) m)
]

-- The keys of `self._state` that are not configured, and the map without them.
unfoldable pub removed_from : Targets → List String → List String
removed_from [] urls = []
removed_from ((k, r) ∷ ts) urls =
    let rest = removed_from ts urls in if contains urls k then rest else k ∷ rest

unfoldable pub kept_from : Targets → List String → Targets
kept_from [] urls = []
kept_from ((k, r) ∷ ts) urls =
    let rest = kept_from ts urls in if contains urls k then (k, r) ∷ rest else rest

abbrev pub is_empty {ℓ} : {A : Type ℓ} → List A → Bool
is_empty [] = true
is_empty (x ∷ xs) = false

unfoldable pub prune : List String → StateManager → List String × StateManager
unfolding removed_from kept_from
prune urls m =
    let removed = removed_from m.targets urls in
    if is_empty removed
    then ([], m)
    else (removed, write_sync (record m { targets = kept_from m.targets urls }))
