-- ===== src/Run/Round/Lost.antt =====
-- main.py: an alert that nobody received shows in the exit code of its round.
use vigil_sre.Prelude.{
  ℕ, ◌<◌, String, ◌≡◌, refl, Bool, true, false, Option, none, some, List, [], ◌∷◌, ◌++◌, map, arith,
  str_eq, is_some, Bool-cases, Option-cases, inl, inr, ap, ◌∙◌, sym, eq_refl, eq_iff,
}
use vigil_sre.Prelude.Dict.{lookup, lookup-insert, contains}
use vigil_sre.Diagnostics.Maintenance.{in_maintenance}
use vigil_sre.Notifiers.Kind.{AlertKind, is_status_alert_kind}
use vigil_sre.Notifiers.Send.{Channel}
use vigil_sre.Notifiers.Dispatch.{Circuits, dispatch_alert}
use vigil_sre.State.Record.{UrlState, Stamp, at, owed_an_alert}
use vigil_sre.State.Manager.{
  StateManager, Targets, Document, load_sync, get_record, note_undelivered_advisory, write_sync,
  put_record,
}
use vigil_sre.State.Setters.{set_down}
use vigil_sre.State.Markers.{
  record_alert_outcome, record_muted_alert, record_trend_alert, outcome_record, prune,
}
use vigil_sre.State.Observe.{observe, observe_lem, observed, failed}
use vigil_sre.State.Laws.{get_record-commit_self}
use vigil_sre.State.InStep.{
  InStep, perform-InStep, prune-InStep, note_undelivered-InStep, new_manager-InStep,
}
use vigil_sre.State.Prune.{prune_lem}
use vigil_sre.State.Target.{machine, machine-outcome, machine-mark_muted}
use vigil_sre.State.Target.Machine.{Machine, step, on_record, muted_record, perform, mark_trend}
use vigil_sre.Check.World.{World, read_clock, with_state}
use vigil_sre.Check.Funnel.{alert_unless_muted, after_dispatch, note_outcome}
use vigil_sre.Check.Probe
use vigil_sre.Check.Probe.{probe_with_backoff}
use vigil_sre.Check.Url.{
  Target, check_url, check_result, check_failure, check_down, alert_transition,
}
use vigil_sre.Check.Url.Isolated.{check_url-Keeps}
use vigil_sre.Run.Report.{
  count_pending, undelivered_alerts, alerts_undelivered, finish_run, exit_code, incomplete,
}
use vigil_sre.Run.Trend.{maybe_alert_trend}
use vigil_sre.Run.Trend.Survives.{maybe_alert_trend-P}
use vigil_sre.Run.Round.Written.{check_all-InStep}
use vigil_sre.Run.Round.{
  Job, job_url, trend_job, Tally, tally, check_all, conclude, run_health_checks, start_world,
}

count_pending-pos :
    (url : String) (ts : Targets) (r : UrlState)
    → lookup url ts ≡ some r
    → owed_an_alert (some r) ≡ true
    → 0 < count_pending ts
unfolding count_pending lookup owed_an_alert
count_pending-pos url [] r e o = cc
count_pending-pos url ((k, x) ∷ ts) r e o = elim (Bool-cases (str_eq k url)) [
  | inl p ↦ ground arith
  | inr p ↦ ground (arith, count_pending-pos url ts r)
]

undelivered_alerts-load_sync :
    (file : Document) → undelivered_alerts file ≡ count_pending (load_sync file)
unfolding undelivered_alerts load_sync count_pending
undelivered_alerts-load_sync file = ground arith

-- The target is owed an alert.
record Owes (url : String) (m : StateManager) : Type 0 where
  owed : owed_an_alert (get_record m url) ≡ true

Owes-counted :
    (url : String) (m : StateManager)
    → InStep m
    → m.write_failures ≡ 0
    → Owes url m
    → 0 < undelivered_alerts m.file
unfolding get_record owed_an_alert
Owes-counted url m i w o =
    rw (undelivered_alerts-load_sync m.file, i.same w) (found (lookup url m.targets) refl)
  where
    found : (r : Option UrlState) → lookup url m.targets ≡ r → 0 < count_pending m.targets
    found none e = ground (arith, o.owed, e)
    found (some r) e = count_pending-pos url m.targets r e (ap owed_an_alert (sym e) ∙ o.owed)

-- A round that ends with an alert owed exits with 1: it is counted, or a write failed.
Owes-exits :
    (url : String) (strict : Bool) (t : Tally) (w : World)
    → InStep w.state
    → Owes url w.state
    → let r = conclude t w in finish_run strict r.down_count w.state.file (some r.report) ≡ 1
unfolding conclude finish_run exit_code incomplete alerts_undelivered
Owes-exits url strict t w i o =
    let counted : w.state.write_failures ≡ 0 → 0 < undelivered_alerts w.state.file =
      λ z. Owes-counted url w.state i z o in
    ground (arith, counted)

module _ (url : String) where
  mark-Owes :
      (j : String) (p95 : Option ℕ) (m : StateManager)
      → Owes url m
      → Owes url (record_trend_alert j p95 m)
  unfolding get_record record_trend_alert write_sync put_record owed_an_alert
  mark-Owes j p95 m o = elim (Option-cases (lookup j m.targets)) [
    | inl e ↦ record { owed = ground (arith, o.owed, e) }
    | inr (r, e) ↦ record {
      owed = ground (
        arith,
        o.owed,
        e,
        eq_iff j url,
        lookup-insert j url (record r { trend_alerted_p95_ms = p95 }) m.targets,
      );
    }
  ]

  lost-Owes :
      (kind : AlertKind) (m : StateManager)
      → Owes url m
      → Owes url (note_undelivered_advisory kind m)
  unfolding note_undelivered_advisory get_record
  lost-Owes kind m o = record { owed = o.owed }

  prune-Owes :
      (urls : List String) (m : StateManager)
      → contains urls url ≡ true
      → Owes url m
      → Owes url (prune urls m).1
  prune-Owes urls m c o = record {
    owed = ap owed_an_alert ((prune_lem urls m url).0 ∙ rw c refl) ∙ o.owed;
  }

check_all-Keeps :
    (js : List Job) (w : World) (url : String)
    → contains (map job_url js) url ≡ false
    → machine (check_all js w).1.state url ≡ machine w.state url
unfolding check_all contains
check_all-Keeps [] w url n = refl
check_all-Keeps (j ∷ js) w url n = elim (Bool-cases (str_eq j.target.url url)) [
  | inl e ↦ ground (arith, e)
  | inr e ↦
      check_all-Keeps js (check_url j.target j.script w).1 url (ground (arith, e))
      ∙ check_url-Keeps j.target url e j.script w
]

check_all-append :
    (xs ys : List Job) (w : World)
    → (check_all (xs ++ ys) w).1 ≡ (check_all ys (check_all xs w).1).1
unfolding check_all
check_all-append [] ys w = refl
check_all-append (x ∷ xs) ys w = check_all-append xs ys (check_url x.target x.script w).1

contains-append :
    (xs ys : List Job) (j : Job) → contains (map job_url (xs ++ j ∷ ys)) (job_url j) ≡ true
unfolding contains
contains-append [] ys j = rw (eq_refl (job_url j)) refl
contains-append (x ∷ xs) ys j = ground (arith, contains-append xs ys j)

-- What the failed check leaves once its alert reached nobody.
module _ (url : String) (m : StateManager) (r : UrlState) (e : get_record m url ≡ some r) where
  after_lost :
      get_record (record_muted_alert url false (record_alert_outcome url false m)) url
      ≡ some (muted_record false (outcome_record false r))
  unfolding step
  after_lost =
      ap (λ (v : Machine). v.current)
        (machine-mark_muted url (record_alert_outcome url false m) false)
      ∙ ap (λ (v : Machine). on_record (muted_record false) v.current) (machine-outcome url m false)
      ∙ ap (λ o. on_record (muted_record false) (on_record (outcome_record false) o)) e

  lost-owed : owed_an_alert (some (muted_record false (outcome_record false r))) ≡ true
  unfolding owed_an_alert outcome_record
  lost-owed = ground arith

set_down-observed :
    (url error : String) (now : Stamp) (m : StateManager)
    → get_record (set_down true url error now m).1 url
      ≡ some (observed true (failed error) (get_record m url) now)
unfolding observe
set_down-observed url error now m =
    rw (observe_lem true url (failed error) now m) (get_record-commit_self _ _ _ _ _)

-- The state behind such a check.
check_down-lost :
    (t : Target) (error : String) (w : World)
    → (set_down true t.url error (at (read_clock w).now) w.state).0 ≡ true
    → is_some (in_maintenance t.maintenance (read_clock (read_clock w)).now) ≡ false
    → (dispatch_alert w.channels w.circuits).delivered ≡ false
    → (check_down t error w).state
      ≡ record_muted_alert t.url false (
          record_alert_outcome t.url false
            (set_down true t.url error (at (read_clock w).now) w.state).1)
unfolding check_down alert_transition alert_unless_muted note_outcome after_dispatch read_clock
    is_status_alert_kind
check_down-lost t error w alert calm dead = ground arith

check_url-Owes :
    (t : Target) (script : List Probe.Attempt) (w : World) (error : String)
    → (probe_with_backoff script).result ≡ Probe.failure error
    → (set_down true t.url error (at (read_clock (read_clock w)).now) w.state).0 ≡ true
    → is_some (in_maintenance t.maintenance (read_clock (read_clock (read_clock w))).now) ≡ false
    → (dispatch_alert w.channels w.circuits).delivered ≡ false
    → Owes t.url (check_url t script w).1.state
unfolding check_url check_result check_failure read_clock
check_url-Owes t script w error p alert calm dead =
    let w1 = read_clock w in
    let now = (read_clock w1).now in
    let m = (set_down true t.url error (at now) w.state).1 in
    let r = observed true (failed error) (get_record w.state t.url) (at now) in
    let here = set_down-observed t.url error (at now) w.state in
    let calls : (check_url t script w).1.state
        ≡ record_muted_alert t.url false (record_alert_outcome t.url false m) =
      rw p (check_down-lost t error w1 alert calm dead) in
    record {
      owed =
          ap (λ (v : StateManager). owed_an_alert (get_record v t.url)) calls
          ∙ ap owed_an_alert (after_lost t.url m r here)
          ∙ lost-owed t.url m r here;
    }

-- If in a round a check's probe fails outside maintenance, its failure is to be announced, and its
-- alert reaches no channel, then the round's process exits with 1, with or without `--strict`:
-- whatever the checks before and behind it, the trend alerts and the pruning do, and whichever writes
-- of the state file fail. No other target of the round has the same URL.
pub lost_failure_exits :
    (file : Document) (faults : List Bool) (channels : List Channel) (circuits : Circuits) (now : ℕ)
    (clock : List ℕ) (before : List Job) (j : Job) (behind : List Job) (error : String)
    (strict : Bool)
    → contains (map job_url behind) (job_url j) ≡ false
    → (probe_with_backoff j.script).result ≡ Probe.failure error
    → let w0 = start_world file faults channels circuits now clock in
      let w = (check_all before w0).1 in
      (set_down true (job_url j) error (at (read_clock (read_clock w)).now) w.state).0 ≡ true
      → is_some (in_maintenance j.target.maintenance (read_clock (read_clock (read_clock w))).now)
        ≡ false
      → (dispatch_alert w.channels w.circuits).delivered ≡ false
      → let r = run_health_checks (before ++ j ∷ behind) w0 in
        finish_run strict r.down_count r.world.state.file (some r.report) ≡ 1
unfolding run_health_checks check_all start_world conclude perform
lost_failure_exits file faults channels circuits now clock before j behind error strict distinct p
      alert calm dead =
    let url = job_url j in
    let jobs = before ++ j ∷ behind in
    let w0 = start_world file faults channels circuits now clock in
    let w = (check_all before w0).1 in
    let w1 = (check_url j.target j.script w).1 in
    let owed1 = check_url-Owes j.target j.script w error p alert calm dead in
    let kept = ap (λ (v : Machine). v.current) (check_all-Keeps behind w1 url distinct) in
    let owed2 : Owes url (check_all jobs w0).1.state =
      rw (check_all-append before (j ∷ behind) w0)
        (record { owed = ap owed_an_alert kept ∙ owed1.owed }) in
    let step2 : InStep (check_all jobs w0).1.state =
      check_all-InStep jobs w0 (new_manager-InStep file faults) in
    let (results, w2) = check_all jobs w0 in
    let w3 = (maybe_alert_trend (map trend_job jobs) w2).1 in
    let owed3 =
      maybe_alert_trend-P (Owes url) (mark-Owes url) (lost-Owes url) (map trend_job jobs) w2
        owed2 in
    let step3 =
      maybe_alert_trend-P InStep (λ k q m i. perform-InStep k m i (mark_trend q))
        note_undelivered-InStep (map trend_job jobs) w2 step2 in
    Owes-exits url strict (tally results) (with_state (λ m. (prune (map job_url jobs) m).1) w3)
      (prune-InStep (map job_url jobs) w3.state step3)
      (prune-Owes url (map job_url jobs) w3.state (contains-append before behind j) owed3)
