-- ===== src/State/Announce/Flap.antt =====
-- main.py: failures that never come twice in a row raise no alert.
use vigil_sre.Prelude.{
  ℕ, String, ◌≡◌, refl, Bool, true, false, none, some, List, [], ◌∷◌, arith, get_or, ap, ◌∙◌,
}
use vigil_sre.State.Record.{up, Stamp, UrlState, owed_an_alert, carry_forward}
use vigil_sre.State.Performance.{performance_decision}
use vigil_sre.State.Manager.{Document}
use vigil_sre.State.Marks.{marked, marked-SameStatus}
use vigil_sre.State.Target.Machine.{Call, calls_on}
use vigil_sre.State.Setters.{
  stored, update, up_decision, up_record, degraded_decision, down_step, down_stored, stabilized,
}
use vigil_sre.State.Observe.{Observation, healthy, slow, failed, answer, observed}
use vigil_sre.State.Rounds.{Turn, play, play-alerts, alerts, turn_record, recorded, AllOrdinary}
use vigil_sre.State.Announce.Once.{silence}

abbrev pub is_failure : Observation → Bool
is_failure (healthy d) = false
is_failure (slow reason d) = false
is_failure (failed error) = true

abbrev pub strikes : Bool → ℕ
strikes false = 0
strikes true = 1

-- An UP target with nothing owed; `struck` says whether its last round failed.
pub record Calm (struck : Bool) (r : UrlState) : Type 0 where
  pub same : r.status ≡ up
  pub notified : r.notification_status ≡ some up
  pub clear : r.alert_pending ≡ some false
  pub announced : r.missed_outage ≡ none
  pub failures : get_or r.consecutive_failures 0 ≡ strikes struck

-- A round that is not slow, and does not fail right after a failure.
abbrev pub MayFollow : Bool → Observation → Type 0
MayFollow struck (healthy d) = Unit
MayFollow struck (slow reason d) = ⊥
MayFollow true (failed error) = ⊥
MayFollow false (failed error) = Unit

abbrev pub Spaced : Bool → List Turn → Type 0
Spaced struck [] = Unit
Spaced struck (t ∷ ts) = MayFollow struck t.seen × Spaced (is_failure t.seen) ts

module _ (s struck : Bool) (r : UrlState) (now : Stamp) where
  Calm-quiet :
      (o : Observation) → Calm struck r → MayFollow struck o → answer s o (some r) now ≡ false
  unfolding answer up_decision degraded_decision down_step performance_decision owed_an_alert
  Calm-quiet (healthy d) h f = ground arith
  Calm-quiet (slow reason d) h f = absurd f
  Calm-quiet (failed error) h f = ground arith

  Calm-observed :
      (o : Observation)
      → Calm struck r
      → MayFollow struck o
      → Calm (is_failure o) (observed s o (some r) now)
  unfolding observed stored update up_record up_decision carry_forward down_stored down_step
      stabilized performance_decision owed_an_alert
  Calm-observed (healthy d) h f = ground arith
  Calm-observed (slow reason d) h f = absurd f
  Calm-observed (failed error) h f = ground arith

Calm-marked :
    (struck : Bool) (cs : List Call) (r : UrlState) → Calm struck r → Calm struck (marked cs r)
Calm-marked struck cs r h =
    let q = marked-SameStatus cs r in
    record {
      same = q.status ∙ h.same;
      notified = q.notified ∙ h.notified;
      clear = q.pending ∙ h.clear;
      announced = q.missed ∙ h.announced;
      failures = ap (λ n. get_or n 0) q.failures ∙ h.failures;
    }

module _ (s : Bool) (url : String) where
  Calm-alerts :
      (ts : List Turn) (struck : Bool) (r : UrlState)
      → Calm struck r
      → Spaced struck ts
      → alerts s url ts (some r) ≡ silence ts
  unfolding alerts turn_record
  Calm-alerts [] struck r h sp = refl
  Calm-alerts (t ∷ ts) struck r h sp =
      let h' = Calm-observed s struck r t.now t.seen h sp.0 in
      rw (Calm-quiet s struck r t.now t.seen h sp.0) (
        rw (
          Calm-alerts ts (is_failure t.seen) _
            (Calm-marked (is_failure t.seen) (calls_on url t.after) _ h') sp.1))

  -- From a file with an UP target and nothing owed, rounds that are never slow and never fail twice
  -- in a row call for no alert, however long the target flaps between UP and failure. Each round is
  -- a process that starts from the file of the one before, checks the target once, and writes
  -- without a fault.
  pub flapping_is_silent :
      (struck : Bool) (ts : List Turn) (file : Document) (r : UrlState)
      → AllOrdinary s url ts file
      → recorded file url ≡ some r
      → Calm struck r
      → Spaced struck ts
      → (play s url ts file).0 ≡ silence ts
  flapping_is_silent struck ts file r o e h sp =
      rw (play-alerts s url ts file o, e) (Calm-alerts ts struck r h sp)
