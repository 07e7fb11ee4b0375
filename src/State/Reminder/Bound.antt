-- ===== src/State/Reminder/Bound.antt =====
-- main.py: how many reminders the rounds of one outage deliver.
use vigil_sre.Prelude.{
  ℕ, ap, ◌∙◌, ◌+◌, ◌-◌, ◌≤◌, String, ◌≡◌, some, List, [], ◌∷◌, arith, get_or, Option-cases, inl,
  inr, true, false, refl, Bool-cases,
}
use vigil_sre.Diagnostics.Reminders.{reminders_due}
use vigil_sre.State.Record.{at, UrlState, down}
use vigil_sre.State.Manager.{StateManager, Document, new_manager, get_record, muted_alert_owed}
use vigil_sre.State.Markers.{claim_reminder_step, record_alert_outcome}
use vigil_sre.State.Target.Machine.{
  step, on_record, claimed_record, unclaimed_record, perform_all, perform, observing, outcome,
  claim, unclaim, mark_muted,
}
use vigil_sre.State.InStep.{
  InStep, perform_all-InStep, perform-InStep, prune-InStep, new_manager-InStep,
  get_record-new_manager,
}
use vigil_sre.State.Prune.{prune_lem}
use vigil_sre.State.Observe.{observe, observe_lem, observed, failed}
use vigil_sre.State.Laws.{get_record-commit_self}
use vigil_sre.State.Rounds.{recorded, get_record-calls}
use vigil_sre.State.Setters.{set_down}
use vigil_sre.State.Reminder.{
  FailedTurn, announce, remind, failed_check, failed_turn, reminders_sent, OrdinaryFailed,
  AllFailed, claim_on, claim-claim_on, get_record-claim, get_record-release,
}
use vigil_sre.State.Reminder.Ongoing.{
  Ongoing, next_step, Later, observed-Ongoing, claimed-Ongoing, unclaimed-Ongoing, claim_on-counts,
  next_step-ge, next_step-le, announced-Kept, maybe_unmuted-Kept, announce-Kept,
}

announce-InStep :
    (url : String) (t : FailedTurn) (m : StateManager) → InStep m → InStep (announce url t m)
unfolding announce perform
announce-InStep url t m i = elim (Bool-cases (muted_alert_owed m url)) [
  | inl o ↦ rw o (
      perform-InStep url (record_alert_outcome url t.reached m)
        (perform-InStep url m i (outcome t.reached)) (mark_muted false))
  | inr o ↦ rw o i
]

module _ (start taken last : ℕ) (url : String) (t : FailedTurn) (early : t.claimed_at ≤ last)
    (le : taken ≤ reminders_due (last - start)) where
  remind-Later :
      (m : StateManager) (r : UrlState)
      → get_record m url ≡ some r
      → Ongoing start taken r
      → Later start taken last (remind url t m).0 (get_record (remind url t m).1 url)
  unfolding remind step
  remind-Later m r e h =
      let now = t.claimed_at in
      let m1 = (claim_reminder_step url now m).1 in
      let asked : (claim_reminder_step url now m).0 ≡ claim_on now (some r) =
        claim-claim_on url now m ∙ ap (claim_on now) e in
      let e1 : get_record m1 url ≡ some (claimed_record now r) =
        get_record-claim url now m ∙ ap (on_record (claimed_record now)) e in
      let h1 = claimed-Ongoing start taken r h now in
      let le1 = next_step-le start taken now last early le in
      elim (Option-cases (claim_on now (some r))) [
        | inl n ↦
            let (r2, e2, h2) = announce-Kept start (next_step start taken now) url m1 _ e1 h1 t in
            rw (remind, asked, n)
              (record {
                current = r2;
                steps = next_step start taken now;
                found = e2;
                ongoing = h2;
                counted = omega (arith, next_step-ge start taken now);
                bounded = le1;
              })
        | inr (c, n) ↦ elim (Bool-cases t.reached) [
          | inl y ↦
              let (r2, e2, h2) =
                maybe_unmuted-Kept start (next_step start taken now) url m1 _ e1 h1
                  (muted_alert_owed m1 url) in
              rw (remind, asked, n, y)
                (record {
                  current = r2;
                  steps = next_step start taken now;
                  found = e2;
                  ongoing = h2;
                  counted = claim_on-counts start taken r h now c n;
                  bounded = le1;
                })
          | inr y ↦
              rw (remind, asked, n, y)
                (record {
                  current = unclaimed_record c (claimed_record now r);
                  steps = taken;
                  found = get_record-release url c m1 ∙ ap (on_record (unclaimed_record c)) e1;
                  ongoing = unclaimed-Ongoing start taken r h now c n;
                  counted = omega arith;
                  bounded = le;
                })
        ]
      ]

  failed_check-Later :
      (m : StateManager) (r : UrlState)
      → get_record m url ≡ some r
      → Ongoing start taken r
      → Later start taken last (failed_check url t m).0 (get_record (failed_check url t m).1 url)
  unfolding failed_check observe step
  failed_check-Later m r e h =
      let (alert, m1) = set_down true url t.error t.now m in
      let r1 = observed true (failed t.error) (some r) t.now in
      let e1 : get_record m1 url ≡ some r1 =
        rw (observe_lem true url (failed t.error) t.now m)
          (rw e (get_record-commit_self _ _ _ _ _)) in
      let h1 = observed-Ongoing start taken r h t.error t.now in
      elim (Bool-cases alert) [
        | inl a ↦
            let (r2, e2, h2) = announced-Kept start taken url m1 r1 e1 h1 t.reached in
            rw a (record {
              current = r2;
              steps = taken;
              found = e2;
              ongoing = h2;
              counted = omega arith;
              bounded = le;
            })
        | inr a ↦ rw a (remind-Later m1 r1 e1 h1)
      ]

failed_check-InStep :
    (url : String) (t : FailedTurn) (m : StateManager) → InStep m → InStep (failed_check url t m).1
unfolding failed_check remind observe perform
failed_check-InStep url t m i =
    let (alert, m1) = set_down true url t.error t.now m in
    let i1 : InStep m1 = perform-InStep url m i (observing true (failed t.error) t.now) in
    let (claimed, m2) = claim_reminder_step url t.claimed_at m1 in
    let i2 : InStep m2 = perform-InStep url m1 i1 (claim t.claimed_at) in
    elim (Bool-cases alert) [
      | inl a ↦ rw a (
          perform-InStep url (record_alert_outcome url t.reached m1)
            (perform-InStep url m1 i1 (outcome t.reached)) (mark_muted false))
      | inr a ↦ elim (Option-cases claimed) [
        | inl n ↦ rw (a, remind, n) (announce-InStep url t m2 i2)
        | inr (c, n) ↦ elim (Bool-cases t.reached) [
          | inl y ↦ elim (Bool-cases (muted_alert_owed m2 url)) [
            | inl o ↦ rw (a, remind, n, y, o) (perform-InStep url m2 i2 (mark_muted false))
            | inr o ↦ rw (a, remind, n, y, o) i2
          ]
          | inr y ↦ rw (a, remind, n, y) (perform-InStep url m2 i2 (unclaim c))
        ]
      ]
    ]

module _ (last : ℕ) (url : String) (t : FailedTurn) (file : Document)
    (h : OrdinaryFailed last url t file) where
  failed_turn-Later :
      (start taken : ℕ) (r : UrlState)
      → recorded file url ≡ some r
      → Ongoing start taken r
      → taken ≤ reminders_due (last - start)
      → Later start taken last
          (failed_turn url t file).0
          (recorded (failed_turn url t file).1.file url)
  unfolding failed_turn get_record new_manager
  failed_turn-Later start taken r e o le =
      let m0 = perform_all t.before (new_manager file t.faults) in
      let m1 = (failed_check url t m0).1 in
      let m2 = perform_all t.after m1 in
      let e0 : get_record m0 url ≡ some r =
        get_record-calls url t.before (new_manager file t.faults) h.before ∙ e in
      let q = failed_check-Later start taken last url t h.claimed le m0 r e0 o in
      let i2 = perform_all-InStep t.after m1 (
        failed_check-InStep url t m0
          (perform_all-InStep t.before _ (new_manager-InStep file t.faults))) in
      let i3 = prune-InStep t.configured m2 i2 in
      record {
        current = q.current;
        steps = q.steps;
        found =
            get_record-new_manager (failed_turn url t file).1 url [] i3 h.written
            ∙ ((prune_lem t.configured m2 url).0 ∙ rw h.configured refl)
            ∙ get_record-calls url t.after m1 h.after
            ∙ q.found;
        ongoing = q.ongoing;
        counted = q.counted;
        bounded = q.bounded;
      }

reminders-le :
    (url : String) (ts : List FailedTurn) (start taken last : ℕ) (file : Document) (r : UrlState)
    → AllFailed last url ts file
    → recorded file url ≡ some r
    → Ongoing start taken r
    → taken ≤ reminders_due (last - start)
    → reminders_sent url ts file + taken ≤ reminders_due (last - start)
unfolding reminders_sent AllFailed
reminders-le url [] start taken last file r h e o le = omega arith
reminders-le url (t ∷ ts) start taken last file r h e o le =
    let q = failed_turn-Later last url t file h.0 start taken r e o le in
    omega (
      arith,
      q.counted,
      reminders-le url ts start q.steps last (failed_turn url t file).1.file q.current h.1 q.found
          q.ongoing q.bounded,
    )

-- However many rounds find a target DOWN since `start` with no reminder taken, and its probe failing,
-- they deliver no more reminders than are due at the latest time of a claim, in whatever order the
-- clock reads; reminders that reach nobody do not count. Each round is a process that starts from
-- the file of the one before, checks the target once, outside maintenance, and writes without a
-- fault.
pub reminders_bounded :
    (url : String) (ts : List FailedTurn) (start last : ℕ) (file : Document) (r : UrlState)
    → AllFailed last url ts file
    → recorded file url ≡ some r
    → r.status ≡ down
    → r.last_changed ≡ at start
    → get_or r.remind_step 0 ≡ 0
    → reminders_sent url ts file ≤ reminders_due (last - start)
reminders_bounded url ts start last file r h e s c n = omega (
  arith,
  reminders-le url ts start 0 last file r h e (record { same = s; since = c; steps = n })
      (omega arith),
)
