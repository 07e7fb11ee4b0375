-- ===== src/Run/Round.antt =====
-- main.py, `run_health_checks`: one round. The checks of the gather run in the list's order here.
pub mod Vouch
pub mod Written
pub mod Lost
use vigil_sre.Prelude.{
  ℕ, suc, String, Bool, ◌||◌, Option, none, some, List, [], ◌∷◌, map, ltb, if◌then◌else◌,
}
use vigil_sre.State.Record.{is_up, is_degraded}
use vigil_sre.State.Manager.{StateManager, Document, new_manager}
use vigil_sre.State.Markers.{prune}
use vigil_sre.Notifiers.Send.{Channel}
use vigil_sre.Notifiers.Dispatch.{Circuits, reset_circuits}
use vigil_sre.Check.Probe
use vigil_sre.Check.World.{World, with_state}
use vigil_sre.Check.Url.{Target, CheckOutcome, check_url}
use vigil_sre.Run.Report.{RunReport, alerts_undelivered}
use vigil_sre.Run.Trend.{TrendRead, maybe_alert_trend}

-- A target with what this round's probes and its history meet.
pub record Job : Type 0 where
  pub target : Target
  pub script : List Probe.Attempt
  pub trend : TrendRead

-- The four counters of the loop over the results, and the outcomes kept for the history.
pub record Tally : Type 0 where
  pub up_count : ℕ
  pub degraded_count : ℕ
  pub down_count : ℕ
  pub internal_errors : ℕ
  pub outcomes : List CheckOutcome

abbrev pub no_results : Tally
no_results = record {
  up_count = 0;
  degraded_count = 0;
  down_count = 0;
  internal_errors = 0;
  outcomes = [];
}

-- One turn of the loop, in front of the results behind it.
unfoldable pub add_result : Option CheckOutcome → Tally → Tally
add_result none t = record t {
  down_count = suc t.down_count;
  internal_errors = suc t.internal_errors;
}
add_result (some o) t =
    let t' = record t { outcomes = o ∷ t.outcomes } in
    if is_up o.status
    then record t' { up_count = suc t.up_count }
    else if is_degraded o.status
    then record t' { degraded_count = suc t.degraded_count }
    else record t' { down_count = suc t.down_count }

unfoldable pub tally : List (Option CheckOutcome) → Tally
unfolding add_result
tally [] = no_results
tally (r ∷ rs) = add_result r (tally rs)

-- `asyncio.gather(*tasks, return_exceptions=True)`
unfoldable pub check_all : List Job → World → List (Option CheckOutcome) × World
check_all [] w = ([], w)
check_all (j ∷ js) w =
    let (o, w') = check_url j.target j.script w in let (os, w'') = check_all js w' in (o ∷ os, w'')

-- What the end of the round does about the watchdog.
pub data Heartbeat : Type 0 where
  withheld_incomplete : Heartbeat
  withheld_undelivered : Heartbeat
  sent : ℕ → Heartbeat

unfoldable pub heartbeat_of : ℕ → Tally → StateManager → Heartbeat
heartbeat_of undelivered t m =
    if ltb 0 t.internal_errors || ltb 0 m.write_failures
    then withheld_incomplete
    else if ltb 0 undelivered
    then withheld_undelivered
    else sent t.down_count

pub record Round : Type 0 where
  pub down_count : ℕ
  pub outcomes : List CheckOutcome
  pub report : RunReport
  pub heartbeat : Heartbeat
  pub world : World

abbrev pub job_url : Job → String
job_url j = j.target.url

abbrev pub trend_job : Job → Target × TrendRead
trend_job j = (j.target, j.trend)

-- The round's world at its start: a manager loaded from the file, the breaker reset.
unfoldable pub start_world : Document → List Bool → List Channel → Circuits → ℕ → List ℕ → World
unfolding new_manager reset_circuits
start_world file faults channels circuits now clock = record {
  state = new_manager file faults;
  channels = channels;
  circuits = reset_circuits circuits;
  now = now;
  clock = clock;
  dispatches = [];
}

-- The end of the round: the report and the heartbeat, of the state after all writes.
unfoldable pub conclude : Tally → World → Round
unfolding heartbeat_of
conclude t w = record {
  down_count = t.down_count;
  outcomes = t.outcomes;
  report = record {
    undelivered_by_kind = w.state.undelivered_advisory;
    internal_errors = t.internal_errors;
    state_write_failures = w.state.write_failures;
  };
  heartbeat = heartbeat_of (alerts_undelivered w.state.file w.state.undelivered_advisory) t w.state;
  world = w;
}

unfoldable pub run_health_checks : List Job → World → Round
unfolding check_all tally conclude
run_health_checks jobs w =
    let (results, w1) = check_all jobs w in
    let (alerted, w2) = maybe_alert_trend (map trend_job jobs) w1 in
    conclude (tally results) (with_state (λ m. (prune (map job_url jobs) m).1) w2)
