-- ===== src/State/Marks.antt =====
-- main.py, `StateManager`: the calls that leave alone what decides about status alerts.
use vigil_sre.Prelude.{◌≡◌, ◌∙◌, ap, some, List, [], ◌∷◌, arith}
use vigil_sre.State.Record.{UrlState}
use vigil_sre.State.Setters.{or_else}
use vigil_sre.State.Target.Machine.{
  Call, observing, outcome, release_mute, mark_muted, mark_cert, mark_trend, claim, unclaim,
  Machine, step, steps, on_record, muted_record, claimed_record, unclaimed_record,
}

-- The calls about a muted alert, a certificate, a trend or a reminder.
abbrev pub IsMark : Call → Type 0
IsMark (observing s o now) = ⊥
IsMark (outcome reached) = ⊥
IsMark release_mute = ⊥
IsMark (mark_muted owed) = Unit
IsMark (mark_cert threshold last_seen) = Unit
IsMark (mark_trend p95) = Unit
IsMark (claim now) = Unit
IsMark (unclaim c) = Unit

abbrev pub AllMarks : List Call → Type 0
AllMarks [] = Unit
AllMarks (c ∷ cs) = IsMark c × AllMarks cs

unfoldable pub mark : Call → UrlState → UrlState
mark (mark_muted owed) r = muted_record owed r
mark (mark_cert threshold last_seen) r = record r {
  cert_alerted_days = threshold;
  cert_last_seen_days = or_else last_seen r.cert_last_seen_days;
}
mark (mark_trend p95) r = record r { trend_alerted_p95_ms = p95 }
mark (claim now) r = claimed_record now r
mark (unclaim c) r = unclaimed_record c r
mark _ r = r

unfoldable pub marked : List Call → UrlState → UrlState
unfolding mark
marked [] r = r
marked (c ∷ cs) r = marked cs (mark c r)

step-mark :
    (c : Call) (v : Machine) (r : UrlState)
    → IsMark c
    → v.current ≡ some r
    → (step c v).current ≡ some (mark c r)
unfolding step mark
step-mark (observing s o now) v r h e = absurd h
step-mark (outcome reached) v r h e = absurd h
step-mark release_mute v r h e = absurd h
step-mark (mark_muted owed) v r h e = ap (on_record (muted_record owed)) e
step-mark (mark_cert threshold seen) v r h e = ap (on_record (mark (mark_cert threshold seen))) e
step-mark (mark_trend p95) v r h e = ap (on_record (mark (mark_trend p95))) e
step-mark (claim now) v r h e = ap (on_record (claimed_record now)) e
step-mark (unclaim c) v r h e = ap (on_record (unclaimed_record c)) e

pub steps-marked :
    (cs : List Call) (v : Machine) (r : UrlState)
    → AllMarks cs
    → v.current ≡ some r
    → (steps cs v).current ≡ some (marked cs r)
unfolding steps marked
steps-marked [] v r h e = e
steps-marked (c ∷ cs) v r h e = steps-marked cs (step c v) (mark c r) h.1 (step-mark c v r h.0 e)

-- Two records that agree on what decides about status alerts.
pub record SameStatus (a b : UrlState) : Type 0 where
  pub status : a.status ≡ b.status
  pub changed : a.last_changed ≡ b.last_changed
  pub checked : a.last_checked ≡ b.last_checked
  pub notified : a.notification_status ≡ b.notification_status
  pub pending : a.alert_pending ≡ b.alert_pending
  pub missed : a.missed_outage ≡ b.missed_outage
  pub failures : a.consecutive_failures ≡ b.consecutive_failures
  pub slow : a.slow_runs ≡ b.slow_runs
  pub healthy : a.healthy_runs ≡ b.healthy_runs

mark-SameStatus : (c : Call) (r : UrlState) → SameStatus (mark c r) r
unfolding mark
mark-SameStatus (mark_muted owed) r = ground arith
mark-SameStatus (claim now) r = ground arith
mark-SameStatus (unclaim c) r = ground arith
mark-SameStatus (mark_cert threshold seen) r = ground arith
mark-SameStatus (mark_trend p95) r = ground arith
mark-SameStatus (observing s o now) r = ground arith
mark-SameStatus (outcome reached) r = ground arith
mark-SameStatus release_mute r = ground arith

SameStatus-trans : (a b c : UrlState) → SameStatus a b → SameStatus b c → SameStatus a c
SameStatus-trans a b c p q = record {
  status = p.status ∙ q.status;
  changed = p.changed ∙ q.changed;
  checked = p.checked ∙ q.checked;
  notified = p.notified ∙ q.notified;
  pending = p.pending ∙ q.pending;
  missed = p.missed ∙ q.missed;
  failures = p.failures ∙ q.failures;
  slow = p.slow ∙ q.slow;
  healthy = p.healthy ∙ q.healthy;
}

pub marked-SameStatus : (cs : List Call) (r : UrlState) → SameStatus (marked cs r) r
unfolding marked
marked-SameStatus [] r = ground arith
marked-SameStatus (c ∷ cs) r =
    SameStatus-trans _ _ _ (marked-SameStatus cs (mark c r)) (mark-SameStatus c r)
