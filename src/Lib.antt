-- ===== src/Lib.antt =====
-- A model of the Vigil monitor (main.py, notifiers.py, diagnostics.py, history.py, targetstore.py,
-- api.py, targetctl.py, mcp_server.py) and its correctness.
--
-- The monitor runs in rounds. A round reads its targets from the store that the dashboard
-- writes (`do_PUT`), or from the seed (`load_targets`), probes every target
-- (`_probe_with_backoff`), turns each probe into an observation (healthy, slow, failed),
-- records it with one of three setters of `StateManager`, and announces what the setter calls
-- for over the channels of notifiers.py. The state survives in state.json; the next round is a
-- new process that reads it. At the end of the round the trends are judged, the records of
-- unconfigured targets are dropped, and the round says by its heartbeat and its exit code
-- whether it can vouch for itself.
--
-- Parts:
--   Prelude        Boolean tests, native integers, association lists
--   Diagnostics    diagnostics.py, the pure rules: Cert (`cert_alert_threshold`,
--                  `is_cert_renewed`, `is_cert_healthy`), Phases (`ProbePhases` and the window
--                  ceilings), Findings (`analyze`, `degraded_reason`), Reminders (`reminders_due`), Trend
--                  (`latency_trend`), Maintenance (`in_maintenance`)
--   Notifiers      notifiers.py: Kind (`AlertKind`, and `_STATUS_ALERT_KINDS` of main.py), Send
--                  (`Notifier.send`), Dispatch (the circuit breaker and `dispatch_alert`)
--   State          main.py, `StateManager`: Record (`UrlState`, `_carry_forward`), Performance
--                  (`_performance_decision`), Manager (the state file and the readers), Setters
--                  (`set_up`, `set_degraded`, `set_down`), Markers (all other methods that write),
--                  Observe (a setter as a function of the record before), Rounds (rounds of one
--                  target, each a process that loads the file of the one before), Marks (the calls
--                  that no status alert depends on), InStep (the file against the memory), Target.Machine (what the manager promises: one machine per target)
--   Check          main.py: Body (the response's body) and Once (`_probe_once`, and the analysis of
--                  its phases in `check_url`), Probe (`_probe_with_backoff`), Funnel (`_alert_unless_muted`,
--                  `_announce_if_owed`), Certificate (`_maybe_alert_cert_expiry`), Url
--                  (`check_url`), World (what one round works on)
--   Run            main.py: Trend (`_maybe_alert_trend`), Round (`run_health_checks`), Report
--                  (`undelivered_alerts`, `_exit_code`, `_finish_run`), Liveness
--                  (`liveness_problem`), Summary (the figures of `_generate_report` and `_trend_lines`)
--   Targets        targetstore.py: Text (its regular expressions), Value (what a JSON or YAML text
--                  holds), Checked (`ValidationError` as a value), Window
--                  (`_validated_windows`), Url, Number and Entry (`validate_entry`), Store
--                  (`validate_all`, `read_store`, `write_store`), Seed (`read_seed`); and, of main.py, Target
--                  (`_resolve_expect_substring`, `_validated_numeric_field`) and Load (`load_targets`)
--   Api            api.py: PUT and GET of "/api/targets" (`do_PUT`, `_authorised`,
--                  `_read_json_body`, `write_token`), over Targets
--   History        history.py: the tables, `record_run` and `prune` (History itself), Reads
--                  (`uptime_pct`, `latency_percentiles`, `latency_trend_windows`), Strip
--                  (`status_strip`); Ledger, Retention and Refines hold what the tables promise
--   Targetctl      targetctl.py: Settings (`parse_settings`), Wire (`_call` and what it reads off an
--                  answer), Targetctl itself (`cmd_add`, `cmd_remove`), Files (`cmd_list`,
--                  `cmd_validate`), over Api
--   Views          api.py: what `read_state_checked`, `stale_seconds` and `history_payload` answer
--                  "/api/status" and "/api/history" with
--   Mcp            mcp_server.py: Tools (the methods and tools), Mcp itself (`handle`, `run`)
--   Tests          the theorems at concrete inputs
-- The modules below these hold the proofs and are named for what they are about.
--
-- The world around the code is a script in each case: the coming writes of the file system fail or
-- not (`faults`), each channel has the answers its POSTs will meet, the clock has its readings,
-- each target has the answers of its requests with their timings, or what its probe attempts come
-- to, a save of the target store may fail at any of its calls, and the windows
-- that the trend alerts read are an argument of theirs. A transaction or a read of history.db
-- raises or does not, as an argument says. The bucket of a strip that SQLite computes in floating
-- point is a parameter, and so is whether the stream of the MCP server can encode an answer. The
-- removal of a temporary file after a failed save of the target store succeeds.
-- Nothing is assumed of a script, unless a theorem names it. Past its end a write goes through, a
-- POST or a probe attempt times out, and the clock stands still.
--
-- A method that holds the manager's lock is one function of the manager. The checks of a round run
-- one after the other in the model; that other orders of their calls make no difference to a
-- target is a theorem of its own. The tasks of one dispatch read the breaker before any records
-- its outcome.
--
-- Loops recurse on the attempts left, three for a POST and three for a probe, which are the bounds
-- of the loops in the source. Times are whole seconds after the epoch (milliseconds for the waits
-- of `send`), a p95 is in thousandths of a millisecond, and the percentages of `latency_trend`,
-- floats in the source, are compared as exact fractions. Log lines are left out and the text of
-- an alert is kept as its arguments.
--
-- The times of one probe are in microseconds, a goodput and a window are exact fractions, and a
-- float of a configuration is its decimal fraction. What urllib, the codec "idna", the tables of
-- Unicode, JSON and YAML answer is a parameter (`Python`, `Json`, `SeedFile`); a theorem that needs
-- more of them than that they are functions names it.
--
-- Not modelled: the network itself (`session.get`, the sampling and the trace hooks of
-- diagnostics.py, reading a certificate off a connection), the texts of recommendations, the
-- payloads of the channels, `redact_url`, the layout of the report, signals, the CSV exports and
-- pages of api.py, and dashboard.py, history_browser.py and scripts/.
pub mod Prelude
pub mod Diagnostics
pub mod History
pub mod Notifiers
pub mod State
pub mod Check
pub mod Run
pub mod Targetctl
pub mod Targets
pub mod Api
pub mod Views
pub mod Mcp
mod Tests
