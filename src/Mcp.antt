-- ===== src/Mcp.antt =====
-- mcp_server.py: JSON-RPC requests over lines of text. What `json.loads`, `strptime` and the reader
-- of .env answer is a parameter.
pub mod Tools
pub mod Replies
pub mod Session
pub mod Unwarned
pub mod Agrees
use vigil_sre.Prelude.{
  ℕ, String, Bool, true, false, not, ◌&&◌, ◌||◌, Option, none, some, List, [], ◌∷◌, if◌then◌else◌,
  is_some, str_eq, get_or,
}
use vigil_sre.Prelude.Int.{ℤ}
use vigil_sre.Prelude.Dict.{lookup, insert}
use vigil_sre.Targets.Value.{Value, null, text, boolean, integer, array, object, items}
use vigil_sre.Diagnostics.Trend.{Window, Trend, latency_trend}
use vigil_sre.History.Reads.{File, absent, Percentiles, latency_trend_windows}
use vigil_sre.Views.{
  StateFile, StateProblem, read_state_checked, stale_seconds, HistoryWarning, history_warnings,
  window_days, HistoryRow, history_payload, urls_of,
}
use vigil_sre.Mcp.Tools.{Server, Called, returned, invalid_parameters, raised, Result, call_method}

pub data ErrorCode : Type 0 where
  parse_error invalid_request method_not_found invalid_params internal_error : ErrorCode

pub data Reply : Type 0 where
  result : Value → Result → Reply
  error : Value → ErrorCode → Reply

-- `_valid_id`
abbrev pub is_valid_id : Value → Bool
is_valid_id (text s) = true
is_valid_id (integer n) = true
is_valid_id _ = false

abbrev pub or_null : Option Value → Value
or_null none = null
or_null (some v) = v

abbrev pub valid_or_null : Option Value → Value
valid_or_null none = null
valid_or_null (some v) = if is_valid_id v then v else null

abbrev pub is_text : Option Value → Bool
is_text (some (text s)) = true
is_text _ = false

abbrev pub is_version_2 : Option Value → Bool
is_version_2 (some (text s)) = str_eq s "2.0"
is_version_2 _ = false

abbrev pub answer_of : Value → Option Called → Reply
answer_of id none = error id method_not_found
answer_of id (some (returned r)) = result id r
answer_of id (some invalid_parameters) = error id invalid_params
answer_of id (some raised) = error id internal_error

-- The parameters have to be a dict, which counts only once the method is known.
abbrev pub answer_with : Server → Value → String → Option Value → Reply
answer_with s id name none = answer_of id (call_method s name [])
answer_with s id name (some (object ps)) = answer_of id (call_method s name (items ps))
answer_with s id name (some other) =
    if is_some (call_method s name []) then error id invalid_params else error id method_not_found

abbrev pub answer : Server → List (String × Value) → Value → Option Value → Reply
answer s fs id (some (text name)) = answer_with s id name (lookup "params" fs)
answer s fs id _ = error id invalid_request

abbrev pub request_answer : Server → List (String × Value) → Option Value → Option Reply
request_answer s fs none = none
request_answer s fs (some id) =
    some
      (if is_valid_id id then answer s fs id (lookup "method" fs) else error null invalid_request)

-- `handle`
unfoldable pub handle : Server → Value → Option Reply
unfolding lookup items call_method
handle s (object fs) =
    if not (is_text (lookup "method" (items fs)))
    then some (error (or_null (lookup "id" (items fs))) invalid_request)
    else if not (is_version_2 (lookup "jsonrpc" (items fs)))
    then some (error (valid_or_null (lookup "id" (items fs))) invalid_request)
    else request_answer s (items fs) (lookup "id" (items fs))
handle s _ = some (error null invalid_request)

-- What `json.loads` does with a line: a value, a `JSONDecodeError`, or an exception that is none: a
-- `RecursionError` on a line nested too deep, a `ValueError` on an integer of too many digits.
pub data LoadedLine : Type 0 where
  loaded : Value → LoadedLine
  not_json raises : LoadedLine

-- `handle_line`; `none` is an exception that leaves it.
unfoldable pub handle_line : Server → LoadedLine → Option (Option Reply)
unfolding handle
handle_line s (loaded m) = some (handle s m)
handle_line s not_json = some (some (error null parse_error))
handle_line s raises = none

-- What `run` writes for the lines that are not blank. `encodes` stands for the stream: a reply with
-- a lone surrogate in it has no encoding, and the exception ends the loop like those of the parser.
unfoldable pub run : (Reply → Bool) → Server → List LoadedLine → List Reply
unfolding handle_line
run encodes s [] = []
run encodes s (line ∷ lines) = after (handle_line s line) (run encodes s lines)
  where
    after : Option (Option Reply) → List Reply → List Reply
    after none rest = []
    after (some none) rest = rest
    after (some (some r)) rest = if encodes r then r ∷ rest else []
