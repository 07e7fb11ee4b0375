-- ===== src/Tests/Reads.antt =====
-- The theorems about the MCP server at concrete inputs.
use vigil_sre.Prelude.{
  Bool, true, if◌then◌else◌, String, List, false, none, some, [], ◌∷◌, ◌++◌, ◌≡◌, refl,
}
use vigil_sre.Prelude.Int.{pos}
use vigil_sre.Prelude.Dict.{lookup}
use vigil_sre.Tests.Data.{api}
use vigil_sre.Targets.Value.{
  text, integer, Fields, field, no_field, object, items, dict_of, of_items,
}
use vigil_sre.History.{empty_database}
use vigil_sre.History.Reads.{read_only, tables}
use vigil_sre.Views.{state_holds, HistoryRow, urls_of, read_state_checked}
use vigil_sre.Mcp.Tools.{trend_call, Server}
use vigil_sre.Mcp.{Reply, loaded, not_json, raises, run}
use vigil_sre.Mcp.Replies.{reply_id, IsRequest}
use vigil_sre.Mcp.Session.{run_lem, AllHandled}
use vigil_sre.Mcp.Agrees.{trend_call_lem}
use vigil_sre.Run.Summary.{trend_rows}
use vigil_sre.Diagnostics.Trend.{Trend, no_data}

abbrev server : Server
server = record {
  state = state_holds (dict_of ((api, dict_of []) ∷ []));
  history = tables empty_database;
  locked = false;
  now = 1000000;
  strptime = λ s. none;
  environ = λ s. none;
  dotenv = λ s. none;
}

-- A call of the tool "get_status".
abbrev request : Fields
request = field "jsonrpc" (text "2.0") (
    field "id" (integer (pos 7)) (
      field "method" (text "tools/call")
        (field "params" (object (field "name" (text "get_status") no_field)) no_field)))

is_request : IsRequest (items request) (integer (pos 7))
unfolding items lookup
is_request = record {
  name = "tools/call";
  method = refl;
  version = refl;
  with_id = refl;
  valid = refl;
}

-- A stream that takes every answer.
abbrev encodes : Reply → Bool
encodes r = true

run_lem_example :
    ((r : Reply) × (reply_id r ≡ integer (pos 7))
      × (run encodes server (not_json ∷ loaded (object request) ∷ loaded (object request) ∷ [])
          ≡ run encodes server (not_json ∷ [])
            ++ (if encodes r then r ∷ run encodes server (loaded (object request) ∷ []) else [])))
    × (run encodes server (not_json ∷ raises ∷ loaded (object request) ∷ [])
        ≡ run encodes server (not_json ∷ []))
unfolding AllHandled
run_lem_example =
    run_lem encodes server (not_json ∷ []) (loaded (object request) ∷ []) request (integer (pos 7))
      (refl, tt) is_request

abbrev no_figures : HistoryRow
no_figures = record { uptime = none; p50 = none; p95 = none }

trend_call_lem_example :
    (rows : List (String × Trend)) × (trend_rows 1000000 false
        (tables empty_database)
        (urls_of (read_state_checked server.state).0)
      ≡ some rows)
    × (lookup api ((api, record { verdict = no_data; suppressed_by = none }) ∷ [])
        ≡ lookup api rows)
unfolding trend_call of_items read_only
trend_call_lem_example =
    trend_call_lem server api ((api, record { verdict = no_data; suppressed_by = none }) ∷ []) []
      refl
