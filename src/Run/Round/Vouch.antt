-- ===== src/Run/Round/Vouch.antt =====
-- main.py: what a finished round says to the watchdog, to the supervisor and of its targets.
use vigil_sre.Prelude.{
  ℕ, suc, ◌+◌, ◌≤◌, ◌≡◌, ◌↔◌, Bool, true, false, Option, none, some, List, [], ◌∷◌, map, arith,
  length,
}
use vigil_sre.Check.World.{World, with_state}
use vigil_sre.Run.Trend.{maybe_alert_trend}
use vigil_sre.State.Markers.{prune}
use vigil_sre.Check.Url.{CheckOutcome}
use vigil_sre.Run.Report.{incomplete, finish_run, exit_code}
use vigil_sre.Run.Round.{
  Job, job_url, trend_job, Tally, tally, check_all, Heartbeat, sent, withheld_incomplete,
  withheld_undelivered, heartbeat_of, conclude, run_health_checks,
}

abbrev pub is_sent : Heartbeat → Bool
is_sent (sent n) = true
is_sent withheld_incomplete = false
is_sent withheld_undelivered = false

conclude-agrees :
    (t : Tally) (w : World)
    → let r = conclude t w in
      (is_sent r.heartbeat ≡ true)
      ↔ (finish_run false r.down_count w.state.file (some r.report) ≡ 0)
unfolding conclude heartbeat_of finish_run exit_code incomplete
conclude-agrees t w = (λ h. ground arith, λ h. ground arith)

-- The watchdog and the supervisor never disagree about a round: it sends the success heartbeat
-- exactly if the process, without `--strict`, exits with 0.
pub heartbeat_agrees_exit :
    (jobs : List Job) (w : World)
    → let r = run_health_checks jobs w in
      (is_sent r.heartbeat ≡ true)
      ↔ (finish_run false r.down_count r.world.state.file (some r.report) ≡ 0)
unfolding run_health_checks conclude
heartbeat_agrees_exit jobs w =
    let (results, w1) = check_all jobs w in
    let (alerted, w2) = maybe_alert_trend (map trend_job jobs) w1 in
    conclude-agrees (tally results) (with_state (λ m. (prune (map job_url jobs) m).1) w2)

abbrev pub count_crashes : List (Option CheckOutcome) → ℕ
count_crashes [] = 0
count_crashes (none ∷ rs) = suc (count_crashes rs)
count_crashes (some o ∷ rs) = count_crashes rs

-- Every result is counted once, as up, degraded or down; the crashed checks are the internal
-- errors, which count as down; and the outcomes are the results of the others.
pub tally_lem :
    (rs : List (Option CheckOutcome))
    → let t = tally rs in
      (t.up_count + t.degraded_count + t.down_count ≡ length rs)
      × (t.internal_errors ≡ count_crashes rs)
      × (t.internal_errors ≤ t.down_count)
      × (length t.outcomes + t.internal_errors ≡ length rs)
unfolding tally
tally_lem [] = omega arith
tally_lem (none ∷ rs) = ground (arith, tally_lem rs)
tally_lem (some o ∷ rs) = ground (arith, tally_lem rs)
