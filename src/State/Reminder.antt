-- ===== src/State/Reminder.antt =====
-- main.py: the reminders of one outage.
pub mod Ongoing
pub mod Bound
use vigil_sre.Prelude.{
  ℕ, ap, ◌∙◌, ◌+◌, ◌-◌, ◌≤◌, String, ◌≡◌, Option, none, some, List, [], ◌∷◌, arith, get_or,
  Option-cases, inl, inr, if◌then◌else◌, leb, Bool, true, false, refl, Bool-cases,
}
use vigil_sre.Diagnostics.Reminders.{reminders_due}
use vigil_sre.Diagnostics.Reminders.Schedule.{reminders_due_mono}
use vigil_sre.State.Record.{Stamp, at, UrlState, is_down, down, carry_forward}
use vigil_sre.State.Manager.{StateManager, Document, new_manager, get_record, muted_alert_owed}
use vigil_sre.State.Markers.{
  ReminderClaim, claim_of, claim_reminder_step, release_reminder, record_alert_outcome,
  record_muted_alert, prune, outcome_record,
}
use vigil_sre.State.Target.Machine.{
  Machine, step, on_record, claimed_record, unclaimed_record, muted_record, Call, perform_all,
  calls_on, perform, observing, outcome, claim, unclaim, mark_muted,
}
use vigil_sre.State.InStep.{
  InStep, perform_all-InStep, perform-InStep, prune-InStep, new_manager-InStep,
  get_record-new_manager,
}
use vigil_sre.State.Prune.{prune_lem}
use vigil_sre.State.Observe.{observe, observe_lem, observed, answer, failed}
use vigil_sre.State.Laws.{get_record-commit_self}
use vigil_sre.State.Rounds.{recorded, get_record-calls}
use vigil_sre.Prelude.Dict.{contains}
use vigil_sre.State.Setters.{set_down, down_stored, down_step, stabilized, repeat_failure}
use vigil_sre.State.Target.{machine-claim, machine-unclaim, machine-outcome, machine-mark_muted}

abbrev pub claim_on : ℕ → Option UrlState → Option ReminderClaim
claim_on now none = none
claim_on now (some r) =
    if is_down r.status then claim_of r.last_changed (get_or r.remind_step 0) now else none

pub claim-claim_on :
    (url : String) (now : ℕ) (m : StateManager)
    → (claim_reminder_step url now m).0 ≡ claim_on now (get_record m url)
unfolding claim_reminder_step
claim-claim_on url now m = elim (Option-cases (get_record m url)) [
  | inl e ↦ ground arith
  | inr (r, e) ↦ elim (Option-cases (claim_of r.last_changed (get_or r.remind_step 0) now)) [
    | inl n ↦ ground arith
    | inr (c, n) ↦ ground arith
  ]
]

pub get_record-claim :
    (url : String) (now : ℕ) (m : StateManager)
    → get_record (claim_reminder_step url now m).1 url
      ≡ on_record (claimed_record now) (get_record m url)
unfolding step
get_record-claim url now m = ap (λ (v : Machine). v.current) (machine-claim url m now)

pub get_record-release :
    (url : String) (c : ReminderClaim) (m : StateManager)
    → get_record (release_reminder url c m) url ≡ on_record (unclaimed_record c) (get_record m url)
unfolding step
get_record-release url c m = ap (λ (v : Machine). v.current) (machine-unclaim url m c)

claim_on-release :
    (now later : ℕ) (c : ReminderClaim) (o : Option UrlState)
    → claim_on now o ≡ some c
    → claim_on later (on_record (unclaimed_record c) (on_record (claimed_record now) o))
      ≡ claim_on later o
unfolding claim_of
claim_on-release now later c o h = ground arith

-- A claim that is handed back leaves the schedule as it found it: at every later time the target
-- is owed the same reminder as if the claim had not been made.
pub release-claim :
    (url : String) (now later : ℕ) (m : StateManager) (c : ReminderClaim)
    → (claim_reminder_step url now m).0 ≡ some c
    → (claim_reminder_step url later (release_reminder url c (claim_reminder_step url now m).1)).0
      ≡ (claim_reminder_step url later m).0
release-claim url now later m c h =
    rw (claim-claim_on, get_record-release, get_record-claim)
      (rw claim-claim_on (claim_on-release now later c (get_record m url) (rw claim-claim_on at h)))

-- A round of a target that is DOWN, whose probe fails: what the setter is told, whether the alert of
-- a transition or a reminder would reach a channel, when a reminder is claimed; the calls of the
-- round in front of the target's and behind them, the URLs that it prunes to, and its failing writes.
pub record FailedTurn : Type 0 where
  pub error : String
  pub now : Stamp
  pub reached : Bool
  pub claimed_at : ℕ
  pub before : List (String × Call)
  pub after : List (String × Call)
  pub configured : List String
  pub faults : List Bool

-- The alert of a failure that a window had muted, once the window is over.
unfoldable pub announce : String → FailedTurn → StateManager → StateManager
announce url t m =
    if muted_alert_owed m url
    then record_muted_alert url false (record_alert_outcome url t.reached m)
    else m

-- A reminder, if one is owed: handed back unless it was delivered.
unfoldable pub remind : String → FailedTurn → StateManager → Bool × StateManager
unfolding announce
remind url t m =
    let (claimed, m') = claim_reminder_step url t.claimed_at m in
    elim claimed [
      | none ↦ (false, announce url t m')
      | some c ↦
          if t.reached
          then (true, if muted_alert_owed m' url then record_muted_alert url false m' else m')
          else (false, release_reminder url c m')
    ]

-- The calls of a failed check outside maintenance, and whether a reminder was delivered.
unfoldable pub failed_check : String → FailedTurn → StateManager → Bool × StateManager
unfolding remind
failed_check url t m =
    let (alert, m') = set_down true url t.error t.now m in
    if alert
    then (false, record_muted_alert url false (record_alert_outcome url t.reached m'))
    else remind url t m'

-- One round, from the file it finds.
unfoldable pub failed_turn : String → FailedTurn → Document → Bool × StateManager
unfolding failed_check
failed_turn url t file =
    let (sent, m) = failed_check url t (perform_all t.before (new_manager file t.faults)) in
    (sent, (prune t.configured (perform_all t.after m)).1)

abbrev pub count_true : Bool → ℕ
count_true true = 1
count_true false = 0

-- How many reminders the rounds deliver.
unfoldable pub reminders_sent : String → List FailedTurn → Document → ℕ
unfolding failed_turn
reminders_sent url [] file = 0
reminders_sent url (t ∷ ts) file =
    let (sent, m) = failed_turn url t file in count_true sent + reminders_sent url ts m.file

-- A round that checks a configured target once, claims its reminder no later than `last`, and whose
-- writes all go through.
pub record OrdinaryFailed (last : ℕ) (url : String) (t : FailedTurn) (file : Document)
    : Type 0 where
  pub configured : contains t.configured url ≡ true
  pub before : calls_on url t.before ≡ []
  pub after : calls_on url t.after ≡ []
  pub claimed : t.claimed_at ≤ last
  pub written : (failed_turn url t file).1.write_failures ≡ 0

unfoldable pub AllFailed : ℕ → String → List FailedTurn → Document → Type 0
AllFailed last url [] file = Unit
AllFailed last url (t ∷ ts) file =
    OrdinaryFailed last url t file × AllFailed last url ts (failed_turn url t file).1.file
