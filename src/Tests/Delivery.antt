-- ===== src/Tests/Delivery.antt =====
-- One call of the funnel, of the channels, of a check and of a round.
use vigil_sre.Prelude.{
  ◌≤◌, String, ◌≡◌, refl, true, false, not, none, some, List, [], ◌∷◌, arith, ◌↔◌,
}
use vigil_sre.Prelude.Dict.{lookup, insert, contains}
use vigil_sre.Notifiers.Kind.{failure, is_status_alert_kind}
use vigil_sre.Notifiers.Send.{
  Channel, answered, client_error, missing, wait_ms, send, is_true, webhook_url,
}
use vigil_sre.Notifiers.Send.Answers.{Accepted}
use vigil_sre.Notifiers.Send.Bounds.{send_lem}
use vigil_sre.Notifiers.Dispatch.{dispatch_alert, circuit_is_open, record_circuit, Circuits}
use vigil_sre.Notifiers.Dispatch.Breaker.{dispatch_alert-delivered, SomeDelivers}
use vigil_sre.State.Record.{up, down, at, UrlState, new_record}
use vigil_sre.State.Manager.{StateManager, wrapped, new_manager, get_record, text}
use vigil_sre.State.Setters.{set_down, set_up, store, commit, stored, up_decision}
use vigil_sre.State.Observe.{failed}
use vigil_sre.State.Target.{interleaving, machine}
use vigil_sre.State.Target.Machine.{
  Call, observing, outcome, mark_muted, perform_all, calls_on, steps,
}
use vigil_sre.Check.World.{World, read_clock}
use vigil_sre.Check.Funnel.{muted, alert_unless_muted}
use vigil_sre.Check.Funnel.Records.{status_alert_recorded, after_status_alert, gets_through}
use vigil_sre.Check.Probe
use vigil_sre.Check.Probe.{Measured, probe_with_backoff}
use vigil_sre.Check.Url.{Target, check_url, check_result, check_success, check_up}
use vigil_sre.Check.Url.Kept.{Keeps}
use vigil_sre.Check.Url.Isolated.{check_url-Keeps}
use vigil_sre.Run.Report.{finish_run}
use vigil_sre.Run.Round.Lost.{lost_failure_exits}
use vigil_sre.Run.Round.Written.{round_written}
use vigil_sre.State.InStep.{new_manager-InStep}
use vigil_sre.State.Manager.{
  load_sync, put_record, write_sync, status_alert, missed_outage, recovery_kind, arm_set,
  note_undelivered_advisory, current_status,
}
use vigil_sre.Diagnostics.Maintenance.{in_maintenance}
use vigil_sre.State.Markers.{
  record_cert_alert, record_muted_alert, record_alert_outcome, prune, removed_from, kept_from,
}
use vigil_sre.State.Performance.{performance_decision}
use vigil_sre.Run.Trend.{maybe_alert_trend, collect}
use vigil_sre.State.Observe.{observe}
use vigil_sre.Run.Trend.{unreadable}
use vigil_sre.Run.Round.{Job, run_health_checks, start_world, check_all, conclude, tally}
use vigil_sre.Run.Round.Vouch.{heartbeat_agrees_exit, is_sent}
use vigil_sre.Run.Liveness.{liveness_problem, document_targets}
use vigil_sre.Run.Liveness.Newest.{liveness_problem_lem, AnyFresh}
use vigil_sre.Prelude.Int.{pos}
use vigil_sre.Diagnostics.Cert.{cert_alert_threshold, is_cert_renewed, is_cert_healthy}
use vigil_sre.State.Manager.{cert_last_seen_days, cert_alerted_days}
use vigil_sre.Check.Probe.Attempts.{probe_with_backoff_lem, Succeeds}
use vigil_sre.Check.Certificate.{maybe_alert_cert_expiry, stored_threshold}
use vigil_sre.Check.Certificate.Offered.{certificate_offered, is_due}
use vigil_sre.Tests.Data.{api, shop}

-- An UP target that failed once.
abbrev struck_record : UrlState
struck_record = record (new_record up (at 100) (at 40) "") {
  consecutive_failures = some 1;
  alert_pending = some false;
  notification_status = some up;
}

abbrev down_record : UrlState
down_record = record (new_record down (at 100) (at 100) "timeout") {
  consecutive_failures = some 2;
  alert_pending = some true;
}

abbrev two_targets : StateManager
two_targets = new_manager (wrapped (some ((api, struck_record) ∷ (shop, down_record) ∷ []))) []

-- A channel whose webhook answers 503 throughout, and one that recovers after a 429.
abbrev broken : Channel
broken = record {
  name = "Slack";
  env = some "https://hooks.example.org/1";
  script = answered 503 missing ∷ answered 503 missing ∷ answered 503 missing ∷ [];
}

abbrev healing : Channel
healing = record {
  name = "Teams";
  env = some "https://hooks.example.org/2";
  script = answered 429 (wait_ms 2000) ∷ client_error ∷ answered 204 missing ∷ [];
}

abbrev world_of : List Channel → World
world_of channels = record {
  state = two_targets;
  channels = channels;
  circuits = [];
  now = 150;
  clock = 160 ∷ 161 ∷ 165 ∷ [];
  dispatches = [];
}

abbrev api_target : Target
api_target = record { url = api; remind = true; trend_alerts = true; maintenance = none }

abbrev timed_out : List Probe.Attempt
timed_out = Probe.failure "timeout" ∷ Probe.failure "timeout" ∷ Probe.failure "refused" ∷ []

send_lem_example :
    ((is_true (send healing).result ≡ true) ↔ Accepted 3 healing.script)
    × ((send healing).posts ≤ 3)
    × ((send healing).slept_ms ≤ 60000)
unfolding webhook_url
send_lem_example = send_lem healing "https://hooks.example.org/2" refl

dispatch_alert-delivered_example :
    ((dispatch_alert (broken ∷ healing ∷ []) []).delivered ≡ true)
    ↔ SomeDelivers [] (broken ∷ healing ∷ [])
dispatch_alert-delivered_example = dispatch_alert-delivered (broken ∷ healing ∷ []) []

abbrev slack_open : Circuits
slack_open = ("Slack", 3) ∷ ("Teams", 1) ∷ []

status_alert_recorded_example :
    let (o, w') = alert_unless_muted api (text "timeout") failure none (world_of (broken ∷ [])) in
    (get_record w'.state api
      ≡ some (after_status_alert o (contains two_targets.armed_by_transition api) struck_record))
    × (o ≡ muted → (w'.dispatches ≡ []) × (w'.channels ≡ broken ∷ []))
unfolding is_status_alert_kind new_manager get_record lookup
status_alert_recorded_example =
    status_alert_recorded api (text "timeout") failure none (world_of (broken ∷ [])) struck_record
      refl refl

check_url-Keeps_example :
    Keeps shop (world_of (broken ∷ [])) (check_url api_target timed_out (world_of (broken ∷ []))).1
check_url-Keeps_example = check_url-Keeps api_target shop refl timed_out (world_of (broken ∷ []))

abbrev calls : List (String × Call)
calls =
    (api, observing true (failed "timeout") (at 160))
    ∷ (shop, observing true (failed "refused") (at 160))
    ∷ (shop, outcome true)
    ∷ (api, outcome false)
    ∷ (shop, mark_muted false)
    ∷ []

interleaving_example :
    machine (perform_all calls two_targets) shop
    ≡ steps (calls_on shop calls) (machine two_targets shop)
interleaving_example = interleaving shop calls two_targets

abbrev api_job : Job
api_job = record { target = api_target; script = timed_out; trend = unreadable }

abbrev shop_job : Job
shop_job = record {
  target = record { url = shop; remind = true; trend_alerts = true; maintenance = none };
  script = timed_out;
  trend = unreadable;
}

lost_failure_exits_example :
    let w0 = start_world two_targets.file (true ∷ []) (broken ∷ []) [] 150 (160 ∷ 161 ∷ []) in
    let r = run_health_checks (shop_job ∷ api_job ∷ []) w0 in
    finish_run true r.down_count r.world.state.file (some r.report) ≡ 1
unfolding probe_with_backoff dispatch_alert set_down new_manager get_record lookup webhook_url
    circuit_is_open send start_world check_all contains check_url read_clock record_muted_alert
    alert_unless_muted in_maintenance is_status_alert_kind record_alert_outcome write_sync
    put_record insert record_circuit
lost_failure_exits_example =
    lost_failure_exits two_targets.file (true ∷ []) (broken ∷ []) [] 150 (160 ∷ 161 ∷ [])
      (shop_job ∷ []) api_job [] "refused" true refl refl refl refl refl

abbrev up_job : Job
up_job = record {
  target = api_target;
  script =
      Probe.failure "timeout"
      ∷ Probe.success (record { diagnostics = ""; reason = none; tls_cert_days_left = none })
      ∷ [];
  trend = unreadable;
}

round_written_example :
    let w0 = start_world two_targets.file (false ∷ []) (broken ∷ []) [] 150 (160 ∷ 161 ∷ []) in
    let r = run_health_checks (up_job ∷ []) w0 in
    load_sync r.world.state.file ≡ r.world.state.targets
unfolding run_health_checks start_world check_all check_url check_result check_success check_up
    set_up store commit stored up_decision performance_decision get_record lookup new_manager
    load_sync probe_with_backoff maybe_alert_trend collect prune removed_from kept_from conclude
    tally put_record write_sync insert contains read_clock status_alert missed_outage recovery_kind
    arm_set maybe_alert_cert_expiry current_status
round_written_example =
    round_written two_targets.file (false ∷ []) (broken ∷ []) [] 150 (160 ∷ 161 ∷ []) (up_job ∷ [])
      refl

heartbeat_agrees_exit_example :
    let r = run_health_checks (api_job ∷ []) (world_of (healing ∷ [])) in
    (is_sent r.heartbeat ≡ true)
    ↔ (finish_run false r.down_count r.world.state.file (some r.report) ≡ 0)
heartbeat_agrees_exit_example = heartbeat_agrees_exit (api_job ∷ []) (world_of (healing ∷ []))

liveness_problem_lem_example :
    (liveness_problem two_targets.file (some 1000) 2000 600 ≡ none)
    ↔ AnyFresh 2000 600 (document_targets two_targets.file)
liveness_problem_lem_example = liveness_problem_lem two_targets.file 1000 2000 600 (omega arith)

abbrev measured : Measured
measured = record { diagnostics = ""; reason = none; tls_cert_days_left = some (pos 12) }

probe_with_backoff_lem_example :
    let p = probe_with_backoff (Probe.failure "timeout" ∷ Probe.success measured ∷ []) in
    ((p.result ≡ Probe.success measured)
      ↔ Succeeds 3 measured (Probe.failure "timeout" ∷ Probe.success measured ∷ []))
    × (p.result ≡ Probe.failure "timeout" → p.attempts ≡ 3)
    × (p.attempts ≤ 3)
    × (p.slept_s ≤ 6)
probe_with_backoff_lem_example =
    probe_with_backoff_lem (Probe.failure "timeout" ∷ Probe.success measured ∷ []) measured
      "timeout"

certificate_offered_example :
    let w = world_of (broken ∷ []) in
    let m = (maybe_alert_cert_expiry api (some (pos 12)) none w).state in
    is_due (pos 11) (observe true api (failed "refused") (at 220) (new_manager m.file [])).1 api
    ≡ not (gets_through none w)
unfolding new_manager get_record lookup cert_last_seen_days cert_alerted_days cert_alert_threshold
    stored_threshold is_cert_renewed maybe_alert_cert_expiry is_cert_healthy alert_unless_muted
    in_maintenance dispatch_alert read_clock webhook_url circuit_is_open send is_status_alert_kind
    note_undelivered_advisory record_cert_alert write_sync put_record
certificate_offered_example =
    certificate_offered api (pos 12) (pos 11) none (world_of (broken ∷ [])) true api
      (failed "refused") (at 220) [] refl refl refl refl (new_manager-InStep two_targets.file [])
      refl
