-- ===== src/State/Observe.antt =====
-- One round's observation of a target, as the setter that records it.
-- A setter's effect is one record and one answer, both functions of the record before.
use vigil_sre.Prelude.{String, Bool, ◌≡◌, refl, Option}
use vigil_sre.State.Record.{Status, up, degraded, down, Stamp, UrlState}
use vigil_sre.State.Manager.{StateManager, get_record}
use vigil_sre.State.Setters.{
  set_up, set_degraded, set_down, store, commit, stored, up_decision, up_record, degraded_decision,
  degraded_record, down_step, down_stored,
}

pub data Observation : Type 0 where
  healthy : Option String → Observation
  slow : String → Option String → Observation
  failed : String → Observation

-- The setter's call, with its answer: is an alert to be sent?
unfoldable pub observe : Bool → String → Observation → Stamp → StateManager → Bool × StateManager
observe stabilize url (healthy d) now m = set_up stabilize url d now m
observe stabilize url (slow reason d) now m = set_degraded stabilize url reason d now m
observe stabilize url (failed error) now m = set_down stabilize url error now m

abbrev pub status_of : Observation → Status
status_of (healthy d) = up
status_of (slow reason d) = degraded
status_of (failed error) = down

module _ (stabilize : Bool) where
  unfoldable pub answer : Observation → Option UrlState → Stamp → Bool
  answer (healthy d) previous now = (up_decision stabilize previous now).0
  answer (slow reason d) previous now = (degraded_decision stabilize previous now).0
  answer (failed error) previous now = (down_step previous error now).0

  unfoldable pub arms : Observation → Option UrlState → Stamp → Bool
  arms (healthy d) previous now = (up_decision stabilize previous now).0
  arms (slow reason d) previous now = (degraded_decision stabilize previous now).0
  arms (failed error) previous now = (down_step previous error now).1

  unfoldable pub observed : Observation → Option UrlState → Stamp → UrlState
  observed (healthy d) previous now =
      stored previous (up_record previous d now) (up_decision stabilize previous now)
  observed (slow reason d) previous now =
      stored previous (degraded_record previous reason d now)
        (degraded_decision stabilize previous now)
  observed (failed error) previous now = down_stored stabilize previous error now

  pub observe_lem :
      (url : String) (o : Observation) (now : Stamp) (m : StateManager)
      → observe stabilize url o now m ≡ (
        answer o (get_record m url) now,
        commit
            (arms o (get_record m url) now)
            url
            (get_record m url)
            (observed o (get_record m url) now)
            m,
      )
  unfolding observe answer arms observed set_up set_degraded set_down store
  observe_lem url (healthy d) now m = refl
  observe_lem url (slow reason d) now m = refl
  observe_lem url (failed error) now m = refl
