-- ===== src/State/Announce/Once.antt =====
-- main.py: an alert is announced once, and one that nobody received is announced again.
use vigil_sre.Prelude.{
  String, ◌≡◌, refl, Bool, true, false, none, some, List, [], ◌∷◌, arith, ap, ◌∙◌, subst, sym,
}
use vigil_sre.State.Record.{Status, Stamp, UrlState, owed_an_alert, carry_forward}
use vigil_sre.State.Performance.{performance_decision}
use vigil_sre.State.Manager.{StateManager, new_manager, next_fault, get_record}
use vigil_sre.State.Markers.{outcome_record}
use vigil_sre.State.Setters.{
  stored, update, up_decision, up_record, degraded_decision, degraded_record, down_step,
  down_stored, stabilized,
}
use vigil_sre.State.Laws.{load-commit}
use vigil_sre.State.Observe.{
  Observation, healthy, slow, failed, status_of, observe, observe_lem, answer, observed,
}
use vigil_sre.State.Manager.{Document}
use vigil_sre.State.Marks.{marked, marked-SameStatus}
use vigil_sre.State.Target.Machine.{Call, calls_on}
use vigil_sre.State.Rounds.{
  Turn, play, play_turn, play_turn-answer, play-alerts, alerts, turn_record, recorded, AllOrdinary,
}
use vigil_sre.State.Announce.{answer-owed, answer-status, answer_of_owed}

-- What a process that starts anew reads of a target, after an observation whose write went through.
restart-observe :
    (s : Bool) (url : String) (o : Observation) (now : Stamp) (m : StateManager)
    (faults : List Bool)
    → next_fault m.faults ≡ false
    → get_record (new_manager (observe s url o now m).1.file faults) url
      ≡ some (observed s o (get_record m url) now)
unfolding get_record new_manager
restart-observe s url o now m faults ok =
    rw (observe_lem s url o now m) (load-commit url _ _ m _ ok)

-- If an observation calls for an alert and the write of the state goes through, then a process that
-- starts from the file it left, and makes an observation of the same status, calls for the alert
-- again: a kill between the transition and the delivery loses no alert.
pub crash-retry :
    (s : Bool) (url : String) (o : Observation) (now : Stamp) (m : StateManager) (o' : Observation)
    (later : Stamp) (faults : List Bool)
    → next_fault m.faults ≡ false
    → (observe s url o now m).0 ≡ true
    → status_of o ≡ status_of o'
    → (observe s url o' later (new_manager (observe s url o now m).1.file faults)).0 ≡ true
crash-retry s url o now m o' later faults ok alert same =
    let a : answer s o (get_record m url) now ≡ true = rw (observe_lem s url o now m) at alert in
    rw (observe_lem s url o' later (new_manager (observe s url o now m).1.file faults)) (
      rw (restart-observe s url o now m faults ok)
        (answer_of_owed s o' _ later (answer-status s o _ now a ∙ same) (answer-owed s o _ now a)))

-- A target whose current status was delivered.
pub record Settled (k : Status) (r : UrlState) : Type 0 where
  pub same : r.status ≡ k
  pub notified : r.notification_status ≡ some k
  pub clear : r.alert_pending ≡ some false
  pub announced : r.missed_outage ≡ none

delivered-Settled : (r : UrlState) → Settled r.status (outcome_record true r)
unfolding outcome_record
delivered-Settled r = record { same = refl; notified = refl; clear = refl; announced = refl }

module _ (s : Bool) (r : UrlState) (now : Stamp) where
  Settled-quiet : (o : Observation) → Settled (status_of o) r → answer s o (some r) now ≡ false
  unfolding answer up_decision degraded_decision down_step performance_decision owed_an_alert
  Settled-quiet (healthy d) h = ground arith
  Settled-quiet (slow reason d) h = ground arith
  Settled-quiet (failed error) h = ground arith

  Settled-observed :
      (o : Observation)
      → Settled (status_of o) r
      → Settled (status_of o) (observed s o (some r) now)
  unfolding observed stored update up_record degraded_record up_decision degraded_decision
      carry_forward down_stored down_step stabilized performance_decision owed_an_alert
  Settled-observed (healthy d) h = ground arith
  Settled-observed (slow reason d) h = ground arith
  Settled-observed (failed error) h = ground arith

Settled-marked :
    (k : Status) (cs : List Call) (r : UrlState) → Settled k r → Settled k (marked cs r)
Settled-marked k cs r h =
    let q = marked-SameStatus cs r in
    record {
      same = q.status ∙ h.same;
      notified = q.notified ∙ h.notified;
      clear = q.pending ∙ h.clear;
      announced = q.missed ∙ h.announced;
    }

-- Every round observes the status `k`.
abbrev pub Steady : Status → List Turn → Type 0
Steady k [] = Unit
Steady k (t ∷ ts) = (k ≡ status_of t.seen) × Steady k ts

abbrev pub silence : List Turn → List Bool
silence [] = []
silence (t ∷ ts) = false ∷ silence ts

module _ (s : Bool) (url : String) where
  Settled-alerts :
      (k : Status) (ts : List Turn) (r : UrlState)
      → Settled k r
      → Steady k ts
      → alerts s url ts (some r) ≡ silence ts
  unfolding alerts turn_record
  Settled-alerts k [] r h st = refl
  Settled-alerts k (t ∷ ts) r h st =
      let h' : Settled (status_of t.seen) r = subst (λ k. Settled k r) st.0 h in
      let h'' : Settled k (observed s t.seen (some r) t.now) =
        subst (λ k. Settled k (observed s t.seen (some r) t.now)) (sym st.0)
          (Settled-observed s r t.now t.seen h') in
      rw (Settled-quiet s r t.now t.seen h')
        (rw (Settled-alerts k ts _ (Settled-marked k (calls_on url t.after) _ h'') st.1))

  -- If a round calls for an alert that reaches a channel, then no number of rounds that observe
  -- the same status calls for another. Each round is a process that starts from the file of the one
  -- before, checks the target once, and writes without a fault; the other calls of the rounds are
  -- any on other targets and, after the check, marks about certificates, trends and reminders.
  pub announced_once :
      (t : Turn) (ts : List Turn) (file : Document)
      → AllOrdinary s url (t ∷ ts) file
      → (play_turn s url t file).0 ≡ true
      → t.reached ≡ true
      → Steady (status_of t.seen) ts
      → (play s url (t ∷ ts) file).0 ≡ true ∷ silence ts
  unfolding alerts turn_record AllOrdinary
  announced_once t ts file o alert reached steady =
      let previous = recorded file url in
      let a : answer s t.seen previous t.now ≡ true =
        sym (play_turn-answer s url t file o.0) ∙ alert in
      let r = observed s t.seen previous t.now in
      let h : Settled (status_of t.seen) (outcome_record true r) =
        subst (λ k. Settled k (outcome_record true r)) (answer-status s t.seen previous t.now a)
          (delivered-Settled r) in
      rw (play-alerts s url (t ∷ ts) file o) (
        rw a (
          rw reached (
            ap (λ as'. true ∷ as')
              (Settled-alerts _ ts _ (Settled-marked _ (calls_on url t.after) _ h) steady))))
