-- ===== src/State/Reminder/Ongoing.antt =====
-- main.py: a target that stays DOWN, under the calls of one failed check.
use vigil_sre.Prelude.{
  ℕ, ap, ◌∙◌, ◌+◌, ◌-◌, ◌≤◌, String, ◌≡◌, Option, some, arith, get_or, inl, inr, if◌then◌else◌, leb,
  Bool, true, false, Bool-cases,
}
use vigil_sre.Diagnostics.Reminders.{reminders_due}
use vigil_sre.Diagnostics.Reminders.Schedule.{reminders_due_mono}
use vigil_sre.State.Record.{Stamp, at, UrlState, down, carry_forward}
use vigil_sre.State.Manager.{StateManager, get_record, muted_alert_owed}
use vigil_sre.State.Markers.{
  ReminderClaim, claim_of, record_alert_outcome, record_muted_alert, outcome_record,
}
use vigil_sre.State.Target.Machine.{
  Machine, step, on_record, claimed_record, unclaimed_record, muted_record,
}
use vigil_sre.State.Observe.{observed, failed}
use vigil_sre.State.Setters.{down_stored, down_step, stabilized, repeat_failure}
use vigil_sre.State.Target.{machine-outcome, machine-mark_muted}
use vigil_sre.State.Reminder.{FailedTurn, announce, count_true, claim_on}

-- A target DOWN since `start`, with `taken` reminders taken.
pub record Ongoing (start taken : ℕ) (r : UrlState) : Type 0 where
  pub same : r.status ≡ down
  pub since : r.last_changed ≡ at start
  pub steps : get_or r.remind_step 0 ≡ taken

abbrev pub next_step : ℕ → ℕ → ℕ → ℕ
next_step start taken now =
    let due = reminders_due (now - start) in if leb due taken then taken else due

-- What a check leaves of such a target.
pub record Later (start taken last : ℕ) (sent : Bool) (o : Option UrlState) : Type 0 where
  pub current : UrlState
  pub steps : ℕ
  pub found : o ≡ some current
  pub ongoing : Ongoing start steps current
  pub counted : count_true sent + taken ≤ steps
  pub bounded : steps ≤ reminders_due (last - start)

module _ (start taken : ℕ) (r : UrlState) (h : Ongoing start taken r) where
  pub observed-Ongoing :
      (error : String) (now : Stamp)
      → Ongoing start taken (observed true (failed error) (some r) now)
  unfolding observed down_stored down_step stabilized repeat_failure carry_forward
  observed-Ongoing error now = ground arith

  pub outcome-Ongoing : (reached : Bool) → Ongoing start taken (outcome_record reached r)
  unfolding outcome_record
  outcome-Ongoing reached = ground arith

  pub claimed-Ongoing : (now : ℕ) → Ongoing start (next_step start taken now) (claimed_record now r)
  unfolding claim_of
  claimed-Ongoing now = ground arith

  pub unclaimed-Ongoing :
      (now : ℕ) (c : ReminderClaim)
      → claim_on now (some r) ≡ some c
      → Ongoing start taken (unclaimed_record c (claimed_record now r))
  unfolding claim_of
  unclaimed-Ongoing now c e = ground arith

  pub muted-Ongoing : Ongoing start taken (muted_record false r)
  muted-Ongoing = ground arith

  pub claim_on-counts :
      (now : ℕ) (c : ReminderClaim)
      → claim_on now (some r) ≡ some c
      → 1 + taken ≤ next_step start taken now
  unfolding claim_of
  claim_on-counts now c e = ground arith

pub next_step-ge : (start taken now : ℕ) → taken ≤ next_step start taken now
next_step-ge start taken now = ground arith

pub next_step-le :
    (start taken now last : ℕ)
    → now ≤ last
    → taken ≤ reminders_due (last - start)
    → next_step start taken now ≤ reminders_due (last - start)
next_step-le start taken now last le lt =
    ground (arith, reminders_due_mono (now - start) (last - start) (omega arith))

module _ (start taken : ℕ) (url : String) (m : StateManager) (r : UrlState)
    (e : get_record m url ≡ some r) (h : Ongoing start taken r) where
  abbrev pub Kept : StateManager → Type 0
  Kept m' = (r' : UrlState) × (get_record m' url ≡ some r') × Ongoing start taken r'

  pub unmuted-Kept : Kept (record_muted_alert url false m)
  unfolding step
  unmuted-Kept = (
    muted_record false r,
    ap (λ (v : Machine). v.current) (machine-mark_muted url m false)
        ∙ ap (on_record (muted_record false)) e,
    muted-Ongoing start taken r h,
  )

  pub announced-Kept :
      (reached : Bool) → Kept (record_muted_alert url false (record_alert_outcome url reached m))
  unfolding step
  announced-Kept reached = (
    muted_record false (outcome_record reached r),
    ap (λ (v : Machine). v.current)
          (machine-mark_muted url (record_alert_outcome url reached m) false)
        ∙ ap (λ (v : Machine). on_record (muted_record false) v.current)
            (machine-outcome url m reached)
        ∙ ap (λ o. on_record (muted_record false) (on_record (outcome_record reached) o)) e,
    muted-Ongoing start taken (outcome_record reached r) (outcome-Ongoing start taken r h reached),
  )

  pub maybe_unmuted-Kept : (owed : Bool) → Kept (if owed then record_muted_alert url false m else m)
  maybe_unmuted-Kept true = unmuted-Kept
  maybe_unmuted-Kept false = (r, e, h)

  pub announce-Kept : (t : FailedTurn) → Kept (announce url t m)
  unfolding announce
  announce-Kept t = elim (Bool-cases (muted_alert_owed m url)) [
    | inl o ↦ rw o (announced-Kept t.reached)
    | inr o ↦ rw o (r, e, h)
  ]
