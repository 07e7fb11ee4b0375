-- ===== src/Run/Round/Written.antt =====
-- main.py, `run_health_checks`: the state file at the end of a round.
use vigil_sre.Prelude.{ℕ, ◌≡◌, List, [], ◌∷◌, map}
use vigil_sre.Notifiers.Send.{Channel}
use vigil_sre.Notifiers.Dispatch.{Circuits}
use vigil_sre.Prelude.{Bool}
use vigil_sre.State.Manager.{Document, load_sync}
use vigil_sre.State.InStep.{
  InStep, perform-InStep, prune-InStep, note_undelivered-InStep, new_manager-InStep,
}
use vigil_sre.State.Target.Machine.{perform, mark_trend}
use vigil_sre.Check.World.{World}
use vigil_sre.Check.Url.{check_url}
use vigil_sre.Check.Url.Survives.{check_url-P}
use vigil_sre.Run.Trend.{maybe_alert_trend}
use vigil_sre.Run.Trend.Survives.{maybe_alert_trend-P}
use vigil_sre.Run.Round.{
  Job, job_url, trend_job, check_all, conclude, run_health_checks, start_world,
}

pub check_all-InStep :
    (js : List Job) (w : World) → InStep w.state → InStep (check_all js w).1.state
unfolding check_all
check_all-InStep [] w i = i
check_all-InStep (j ∷ js) w i = check_all-InStep js (check_url j.target j.script w).1 (
    check_url-P InStep (λ url c m h. perform-InStep url m h c) note_undelivered-InStep j.target
      j.script w i)

-- A round that starts from a state file and reports no failed write ends with a file from which the
-- next process reads exactly the records that this one ended with, whatever its probes, its alerts
-- and its history met.
pub round_written :
    (file : Document) (faults : List Bool) (channels : List Channel) (circuits : Circuits) (now : ℕ)
    (clock : List ℕ) (jobs : List Job)
    → let r = run_health_checks jobs (start_world file faults channels circuits now clock) in
      r.report.state_write_failures ≡ 0 → load_sync r.world.state.file ≡ r.world.state.targets
unfolding run_health_checks conclude start_world perform
round_written file faults channels circuits now clock jobs none_failed =
    let w0 = start_world file faults channels circuits now clock in
    let w2 = (check_all jobs w0).1 in
    let i2 = check_all-InStep jobs w0 (new_manager-InStep file faults) in
    let w3 = (maybe_alert_trend (map trend_job jobs) w2).1 in
    let i3 =
      maybe_alert_trend-P InStep (λ k q m i. perform-InStep k m i (mark_trend q))
        note_undelivered-InStep (map trend_job jobs) w2 i2 in
    (prune-InStep (map job_url jobs) w3.state i3).same none_failed
