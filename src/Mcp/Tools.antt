-- ===== src/Mcp/Tools.antt =====
-- mcp_server.py: the methods of the protocol and the three tools.
use vigil_sre.Prelude.{
  ℕ, String, Bool, true, false, not, ◌||◌, Option, none, some, List, [], ◌∷◌, if◌then◌else◌, str_eq,
  get_or,
}
use vigil_sre.Prelude.Int.{ℤ}
use vigil_sre.Prelude.Dict.{lookup, insert}
use vigil_sre.Targets.Value.{Value, text, array, object, items}
use vigil_sre.Diagnostics.Trend.{Window, Trend, latency_trend}
use vigil_sre.History.Reads.{File, absent, Percentiles, latency_trend_windows}
use vigil_sre.Views.{
  StateFile, StateProblem, read_state_checked, stale_seconds, HistoryWarning, history_warnings,
  window_days, HistoryRow, history_payload, urls_of,
}

-- What the server reads: the two files, whether SQLite refuses a read, the time, the process's
-- environment and the variables of .env.
pub record Server : Type 0 where
  pub state : StateFile
  pub history : File
  pub locked : Bool
  pub now : ℕ
  pub strptime : String → Option ℕ
  pub environ : String → Option String
  pub dotenv : String → Option String

pub data Tool : Type 0 where
  get_status get_history get_trend : Tool

pub data Warning : Type 0 where
  state_unreadable : StateProblem → Warning
  no_alert_channels heartbeat_unconfigured : Warning
  in_history : HistoryWarning → Warning

-- The payload of a tool.
pub data ToolPayload : Type 0 where
  status : List (String × Value) → Option ℤ → List String → Bool → List Warning → ToolPayload
  history_of : String → List (String × HistoryRow) → List HistoryWarning → ToolPayload
  trends : List (String × Trend) → List HistoryWarning → ToolPayload

pub data ToolFailure : Type 0 where
  unknown_window no_history_database unreadable_data : ToolFailure

pub data Result : Type 0 where
  initialized : String → Result
  pong tool_list : Result
  payload : ToolPayload → Result
  -- a result with "isError"
  tool_failed : ToolFailure → Result

-- What a method does.
pub data Called : Type 0 where
  returned : Result → Called
  invalid_parameters raised : Called

-- `_is_set`
abbrev is_nonempty : Option String → Bool
is_nonempty none = false
is_nonempty (some s) = not (str_eq s "")

abbrev is_set_in : Option String → Option String → Bool
is_set_in (some s) other = is_nonempty (some s)
is_set_in none other = is_nonempty other

unfoldable pub is_set : Server → String → Bool
is_set s var = is_set_in (s.environ var) (s.dotenv var)

abbrev named_if : Bool → String → List String → List String
named_if b name rest = if b then name ∷ rest else rest

unfoldable pub channel_names : Server → List String
unfolding is_set
channel_names s =
    named_if (is_set s "DISCORD_WEBHOOK_URL") "Discord"
      (named_if (is_set s "SLACK_WEBHOOK_URL") "Slack" [])

abbrev pub first_warning : Option StateProblem → List Warning → List Warning
first_warning none ws = ws
first_warning (some p) ws = state_unreadable p ∷ ws

abbrev no_channel : List String → List Warning → List Warning
no_channel [] ws = no_alert_channels ∷ ws
no_channel (c ∷ cs) ws = ws

abbrev alerting_warnings : List String → Bool → List Warning
alerting_warnings cs heartbeat =
    no_channel cs (if heartbeat then [] else heartbeat_unconfigured ∷ [])

abbrev status_with : Server → Option (Option ℤ) → Called
status_with s none = raised
status_with s (some stale) =
    let (targets, problem) = read_state_checked s.state in
    let heartbeat = is_set s "HEARTBEAT_URL" in
    returned (
      payload (
        status targets stale (channel_names s) heartbeat
          (first_warning problem (alerting_warnings (channel_names s) heartbeat))))

-- `_get_status`
unfoldable pub status_call : Server → Called
unfolding read_state_checked stale_seconds channel_names is_set
status_call s = status_with s (stale_seconds s.strptime s.now (read_state_checked s.state).0)

abbrev pub is_absent : File → Bool
is_absent absent = true
is_absent _ = false

abbrev pub history_answer : Bool → File → String → Option (List (String × HistoryRow)) → Called
history_answer locked file window none = returned (tool_failed unreadable_data)
history_answer locked file window (some rows) =
    returned (payload (history_of window rows (history_warnings locked file)))

abbrev pub history_over : ℕ → Bool → File → List String → String → Option ℕ → Called
history_over now locked file urls window none = returned (tool_failed unknown_window)
history_over now locked file urls window (some days) =
    if is_absent file
    then returned (tool_failed no_history_database)
    else history_answer locked file window (history_payload now days locked file urls)

-- `_get_history`; a list or a dict is no key of `WINDOWS`, and asking for it raises.
unfoldable pub history_call : Server → Value → Called
unfolding read_state_checked history_payload history_warnings
history_call s (text w) =
    history_over s.now s.locked s.history (urls_of (read_state_checked s.state).0) w (window_days w)
history_call s (array vs) = raised
history_call s (object fs) = raised
history_call s _ = returned (tool_failed unknown_window)

abbrev pub window_of : Option Percentiles → Window
window_of none = record { p95 = none; samples = 0; total = 0 }
window_of (some p) = record { p95 = p.p95; samples = p.samples; total = p.total }

abbrev pub verdict_with :
    String
    → Option (Option Percentiles × Option Percentiles)
    → List (String × Trend)
    → (List (String × Trend) → Option (List (String × Trend)))
    → Option (List (String × Trend))
verdict_with url none verdicts rest = none
verdict_with url (some (recent, previous)) verdicts rest =
    rest (insert url (latency_trend (window_of recent) (window_of previous)) verdicts)

-- The loop of `_get_trend`; none where a read raises.
unfoldable pub verdicts_of :
    Server → List String → List (String × Trend) → Option (List (String × Trend))
unfolding insert latency_trend latency_trend_windows
verdicts_of s [] verdicts = some verdicts
verdicts_of s (url ∷ urls) verdicts =
    verdict_with url (latency_trend_windows url 7 s.now s.locked s.locked s.history) verdicts
      (verdicts_of s urls)

abbrev pub trend_answer : Server → Option (List (String × Trend)) → Called
trend_answer s none = returned (tool_failed unreadable_data)
trend_answer s (some vs) = returned (payload (trends vs (history_warnings s.locked s.history)))

-- `_get_trend`
unfoldable pub trend_call : Server → Called
unfolding verdicts_of read_state_checked history_warnings
trend_call s =
    if is_absent s.history
    then returned (tool_failed no_history_database)
    else trend_answer s (verdicts_of s (urls_of (read_state_checked s.state).0) [])

abbrev tool_named : String → Option Tool
tool_named name =
    if str_eq name "get_status"
    then some get_status
    else if str_eq name "get_history"
    then some get_history
    else if str_eq name "get_trend"
    then some get_trend
    else none

abbrev run_tool : Server → Tool → List (String × Value) → Called
run_tool s get_status arguments = status_call s
run_tool s get_history arguments = history_call s (get_or (lookup "window" arguments) (text "7d"))
run_tool s get_trend arguments = trend_call s

abbrev with_arguments : Server → Option Tool → Option Value → Called
with_arguments s none arguments = invalid_parameters
with_arguments s (some t) none = run_tool s t []
with_arguments s (some t) (some (object fs)) = run_tool s t (items fs)
with_arguments s (some t) (some _) = invalid_parameters

-- `_tools_call`; the look-up of a tool by a list or a dict raises.
unfoldable pub tools_call : Server → List (String × Value) → Called
unfolding lookup items status_call history_call trend_call
tools_call s params = named (lookup "name" params)
  where
    named : Option Value → Called
    named (some (text name)) = with_arguments s (tool_named name) (lookup "arguments" params)
    named (some (array vs)) = raised
    named (some (object fs)) = raised
    named _ = invalid_parameters

abbrev newest_version : String
newest_version = "2025-06-18"

abbrev version_for : Option Value → String
version_for (some (text v)) =
    if str_eq v "2025-03-26" || str_eq v "2024-11-05" then v else newest_version
version_for _ = newest_version

-- `self._methods.get(name)`, applied to the parameters
unfoldable pub call_method : Server → String → List (String × Value) → Option Called
unfolding lookup tools_call
call_method s name params =
    if str_eq name "initialize"
    then some (returned (initialized (version_for (lookup "protocolVersion" params))))
    else if str_eq name "ping"
    then some (returned pong)
    else if str_eq name "tools/list"
    then some (returned tool_list)
    else if str_eq name "tools/call"
    then some (tools_call s params)
    else none
