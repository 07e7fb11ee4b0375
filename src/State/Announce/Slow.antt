-- ===== src/State/Announce/Slow.antt =====
-- main.py: three slow rounds in a row are announced, and two healthy ones end what was announced.
use vigil_sre.Prelude.{
  ℕ, ◌≤◌, String, ◌≡◌, true, false, none, some, List, [], ◌∷◌, arith, get_or, ◌⊎◌, ap, ◌∙◌,
}
use vigil_sre.State.Record.{Status, up, degraded, Stamp, Count, whole, odd, UrlState, carry_forward}
use vigil_sre.State.Performance.{performance_decision, within_gap}
use vigil_sre.State.Manager.{Document}
use vigil_sre.State.Marks.{marked, marked-SameStatus}
use vigil_sre.State.Target.Machine.{Call, calls_on}
use vigil_sre.State.Markers.{outcome_record}
use vigil_sre.State.Setters.{
  stored, update, up_decision, up_record, degraded_decision, degraded_record,
}
use vigil_sre.State.Observe.{healthy, slow, answer, observed}
use vigil_sre.State.Rounds.{Turn, play, play-alerts, alerts, turn_record, recorded, AllOrdinary}

-- The stored streak counts at most `n` rounds; what is no count is read as none.
abbrev AtMost : ℕ → Count → Type 0
AtMost n (whole k) = k ≤ n
AtMost n (odd _) = Unit

-- An answering target, last seen at `seen`, announced UP, with a slow streak of at most `n`.
pub record Warm (seen : Stamp) (n : ℕ) (r : UrlState) : Type 0 where
  pub answers : (r.status ≡ up) ⊎ (r.status ≡ degraded)
  pub checked : r.last_checked ≡ seen
  pub notified : r.notification_status ≡ some up
  pub clear : r.alert_pending ≡ some false
  pub announced : r.missed_outage ≡ none
  pub failures : get_or r.consecutive_failures 0 ≡ 0
  pub runs : AtMost n (get_or r.slow_runs (whole 0))

-- The round `t`, with a slow or a healthy answer whose alert would reach a channel.
abbrev pub slow_turn : String → Stamp → Turn → Turn
slow_turn reason now t = record t { seen = slow reason none; now = now; reached = true }

abbrev pub healthy_turn : Stamp → Turn → Turn
healthy_turn now t = record t { seen = healthy none; now = now; reached = true }

-- A record between rounds: its status, the one announced, and the two streaks.
record Stage (seen : Stamp) (k announced : Status) (slows healths : ℕ) (r : UrlState) : Type 0 where
  same : r.status ≡ k
  checked : r.last_checked ≡ seen
  notified : r.notification_status ≡ some announced
  clear : r.alert_pending ≡ some false
  nothing_missed : r.missed_outage ≡ none
  failures : get_or r.consecutive_failures 0 ≡ 0
  slow_streak : r.slow_runs ≡ some (whole slows)
  healthy_streak : r.healthy_runs ≡ some (whole healths)

Stage-marked :
    (seen : Stamp) (k announced : Status) (slows healths : ℕ) (cs : List Call) (r : UrlState)
    → Stage seen k announced slows healths r
    → Stage seen k announced slows healths (marked cs r)
Stage-marked seen k announced slows healths cs r h =
    let q = marked-SameStatus cs r in
    record {
      same = q.status ∙ h.same;
      checked = q.checked ∙ h.checked;
      notified = q.notified ∙ h.notified;
      clear = q.pending ∙ h.clear;
      nothing_missed = q.missed ∙ h.nothing_missed;
      failures = ap (λ n. get_or n 0) q.failures ∙ h.failures;
      slow_streak = q.slow ∙ h.slow_streak;
      healthy_streak = q.healthy ∙ h.healthy_streak;
    }

module _ (reason : String) (now : Stamp) (r : UrlState) where
  first_slow :
      (seen : Stamp) (n : ℕ)
      → Warm seen n r
      → r.status ≡ up
      → (answer true (slow reason none) (some r) now ≡ false)
        × Stage now degraded up 1 0 (observed true (slow reason none) (some r) now)
  unfolding answer observed stored update degraded_record degraded_decision carry_forward
      performance_decision
  first_slow seen n h u = ground arith

  second_slow :
      (seen : Stamp)
      → Stage seen degraded up 1 0 r
      → within_gap now seen ≡ true
      → (answer true (slow reason none) (some r) now ≡ false)
        × Stage now degraded up 2 0 (observed true (slow reason none) (some r) now)
  unfolding answer observed stored update degraded_record degraded_decision carry_forward
      performance_decision
  second_slow seen h g = ground arith

  third_slow :
      (seen : Stamp)
      → Stage seen degraded up 2 0 r
      → within_gap now seen ≡ true
      → (answer true (slow reason none) (some r) now ≡ true)
        × Stage now degraded degraded 3 0
            (outcome_record true (observed true (slow reason none) (some r) now))
  unfolding answer observed stored update degraded_record degraded_decision carry_forward
      performance_decision outcome_record
  third_slow seen h g = ground arith

module _ (now seen : Stamp) (r : UrlState) where
  first_healthy :
      Stage seen degraded degraded 3 0 r
      → (answer true (healthy none) (some r) now ≡ false)
        × Stage now up degraded 0 1 (observed true (healthy none) (some r) now)
  unfolding answer observed stored update up_record up_decision carry_forward performance_decision
  first_healthy h = ground arith

  second_healthy :
      Stage seen up degraded 0 1 r
      → within_gap now seen ≡ true
      → answer true (healthy none) (some r) now ≡ true
  unfolding answer up_decision performance_decision
  second_healthy h g = ground arith

-- A target that the file has as UP and announced UP, and that turns slow, is announced at the third
-- of three slow rounds with no gap of over five minutes between them; and once that was delivered,
-- at the second of two healthy rounds with no such gap. Each round is a process that starts from the
-- file of the one before, checks the target once, and writes without a fault.
pub slow_then_recovered :
    (url reason : String) (a b c d e : Stamp) (t1 t2 t3 t4 t5 : Turn) (file : Document)
    (seen : Stamp) (n : ℕ) (r : UrlState)
    → let ts =
        slow_turn reason a t1
        ∷ slow_turn reason b t2
        ∷ slow_turn reason c t3
        ∷ healthy_turn d t4
        ∷ healthy_turn e t5
        ∷ [] in
      AllOrdinary true url ts file
      → recorded file url ≡ some r
      → Warm seen n r
      → r.status ≡ up
      → within_gap b a ≡ true
      → within_gap c b ≡ true
      → within_gap e d ≡ true
      → (play true url ts file).0 ≡ false ∷ false ∷ true ∷ false ∷ true ∷ []
unfolding alerts turn_record
slow_then_recovered url reason a b c d e t1 t2 t3 t4 t5 file seen n r o p h u ab bc de =
    let (q1, s1) = first_slow reason a r seen n h u in
    let s1' = Stage-marked _ _ _ _ _ (calls_on url t1.after) _ s1 in
    let (q2, s2) = second_slow reason b _ a s1' ab in
    let s2' = Stage-marked _ _ _ _ _ (calls_on url t2.after) _ s2 in
    let (q3, s3) = third_slow reason c _ b s2' bc in
    let s3' = Stage-marked _ _ _ _ _ (calls_on url t3.after) _ s3 in
    let (q4, s4) = first_healthy d c _ s3' in
    let s4' = Stage-marked _ _ _ _ _ (calls_on url t4.after) _ s4 in
    let q5 = second_healthy e d _ s4' de in
    rw (play-alerts true url _ file o, p) (rw (q1) (rw (q2) (rw q3 (rw q4 (rw q5)))))
