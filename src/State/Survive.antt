-- ===== src/State/Survive.antt =====
-- main.py, `_CARRY_FORWARD_FIELDS`: what a change of status leaves alone.
use vigil_sre.Prelude.{
  String, ◌≡◌, refl, Bool, Option, none, some, arith, Bool-cases, inl, inr, str_eq, eq_iff, subst,
}
use vigil_sre.State.Record.{Stamp, UrlState, carry_forward}
use vigil_sre.State.Manager.{
  StateManager, get_record, cert_alerted_days, cert_last_seen_days, trend_alerted_p95,
}
use vigil_sre.State.Setters.{
  stored, update, up_record, degraded_record, down_stored, down_step, stabilized, first_failure,
  repeat_failure, pending_failure, confirmed_failure,
}
use vigil_sre.State.Laws.{get_record-commit}
use vigil_sre.State.Observe.{Observation, healthy, slow, failed, observe, observe_lem, observed}

-- The reader of one field, of a target that may have no record.
abbrev read {ℓ} : {A : Type ℓ} → (UrlState → Option A) → Option UrlState → Option A
read f none = none
read f (some r) = f r

record SameReads (a b : Option UrlState) : Type 0 where
  band : read (λ r. r.cert_alerted_days) a ≡ read (λ r. r.cert_alerted_days) b
  days : read (λ r. r.cert_last_seen_days) a ≡ read (λ r. r.cert_last_seen_days) b
  p95 : read (λ r. r.trend_alerted_p95_ms) a ≡ read (λ r. r.trend_alerted_p95_ms) b

observed-SameReads :
    (s : Bool) (o : Observation) (previous : Option UrlState) (now : Stamp)
    → SameReads (some (observed s o previous now)) previous
unfolding observed stored update up_record degraded_record carry_forward down_stored down_step
    stabilized first_failure repeat_failure pending_failure confirmed_failure
observed-SameReads s (healthy d) previous now = ground arith
observed-SameReads s (slow reason d) previous now = ground arith
observed-SameReads s (failed error) previous now = ground arith

observe-SameReads :
    (s : Bool) (url : String) (o : Observation) (now : Stamp) (m : StateManager) (j : String)
    → SameReads (get_record (observe s url o now m).1 j) (get_record m j)
observe-SameReads s url o now m j = elim (Bool-cases (str_eq url j)) [
  | inl e ↦ rw (observe_lem s url o now m) (
      rw get_record-commit (
        rw e (
          subst (λ k. SameReads (some (observed s o (get_record m url) now)) (get_record m k))
            ((eq_iff url j).0 e) (observed-SameReads s o (get_record m url) now))))
  | inr e ↦
      rw (observe_lem s url o now m)
        (rw get_record-commit (rw e (record { band = refl; days = refl; p95 = refl })))
]

-- An observation of any target leaves each target's certificate band, last seen days and announced
-- p95 as they were.
pub observe-markers :
    (s : Bool) (url : String) (o : Observation) (now : Stamp) (m : StateManager) (j : String)
    → (cert_alerted_days (observe s url o now m).1 j ≡ cert_alerted_days m j)
      × (cert_last_seen_days (observe s url o now m).1 j ≡ cert_last_seen_days m j)
      × (trend_alerted_p95 (observe s url o now m).1 j ≡ trend_alerted_p95 m j)
unfolding cert_alerted_days cert_last_seen_days trend_alerted_p95
observe-markers s url o now m j = ground (arith, observe-SameReads s url o now m j)
