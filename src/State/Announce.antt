-- ===== src/State/Announce.antt =====
-- main.py: which observations are announced, over one and over many rounds.
pub mod Once
pub mod Flap
pub mod Slow
pub mod Outage
use vigil_sre.Prelude.{String, Bool, true, false, ◌≡◌, refl, Option, none, some, arith}
use vigil_sre.State.Record.{Status, Stamp, UrlState, owed_an_alert, carry_forward}
use vigil_sre.State.Performance.{performance_decision}
use vigil_sre.State.Setters.{
  Decision, stored, update, up_decision, up_record, degraded_decision, degraded_record, down_step,
  down_stored, stabilized,
}
use vigil_sre.State.Observe.{Observation, healthy, slow, failed, answer, observed, status_of}

stored-owed :
    (previous : Option UrlState) (r : UrlState) (d : Decision)
    → d.0 ≡ true
    → owed_an_alert (some (stored previous r d)) ≡ true
unfolding stored owed_an_alert
stored-owed previous r d a = ground arith

stabilized-owed :
    (s : Bool) (n : Status) (r : UrlState)
    → owed_an_alert (some (stabilized s n r)) ≡ owed_an_alert (some r)
unfolding stabilized owed_an_alert
stabilized-owed true n r = refl
stabilized-owed false n r = refl

down_stored-owed :
    (s : Bool) (previous : Option UrlState) (error : String) (now : Stamp)
    → (down_step previous error now).0 ≡ true
    → owed_an_alert (some (down_stored s previous error now)) ≡ true
unfolding down_stored down_step owed_an_alert stabilized
down_stored-owed s none error now a = ground arith
down_stored-owed s (some p) error now a = ground arith

module _ (s : Bool) where
  pub answer-owed :
      (o : Observation) (previous : Option UrlState) (now : Stamp)
      → answer s o previous now ≡ true
      → owed_an_alert (some (observed s o previous now)) ≡ true
  unfolding answer observed
  answer-owed (healthy d) previous now a = stored-owed _ _ _ a
  answer-owed (slow reason d) previous now a = stored-owed _ _ _ a
  answer-owed (failed error) previous now a = down_stored-owed s previous error now a

  -- the status
  pub answer-status :
      (o : Observation) (previous : Option UrlState) (now : Stamp)
      → answer s o previous now ≡ true
      → (observed s o previous now).status ≡ status_of o
  unfolding answer observed stored up_record degraded_record update carry_forward down_stored
      down_step stabilized
  answer-status (healthy d) previous now a = ground arith
  answer-status (slow reason d) previous now a = ground arith
  answer-status (failed error) previous now a = ground arith

  pub answer_of_owed :
      (o : Observation) (r : UrlState) (now : Stamp)
      → r.status ≡ status_of o
      → owed_an_alert (some r) ≡ true
      → answer s o (some r) now ≡ true
  unfolding answer up_decision degraded_decision down_step performance_decision owed_an_alert
  answer_of_owed (healthy d) r now e p = ground arith
  answer_of_owed (slow reason d) r now e p = ground arith
  answer_of_owed (failed error) r now e p = ground arith
