-- ===== src/Views.antt =====
-- api.py: what the readers of state.json and history.db answer with, over HTTP and through MCP.
use vigil_sre.Prelude.{
  ℕ, ◌-◌, ◌*◌, String, Bool, Option, none, some, List, [], ◌∷◌, leb, if◌then◌else◌, is_some, str_eq,
  map, get_or,
}
use vigil_sre.Prelude.Int.{ℤ, pos, negsuc, ltb_ℤ}
use vigil_sre.Prelude.Dict.{lookup, insert}
use vigil_sre.Targets.Value.{Value, text, object, items, is_truthy}
use vigil_sre.History.Reads.{
  File, absent, directory, no_schema, tables, Read, failed, got, Uptime, Percentiles, uptime_pct,
  latency_percentiles,
}

-- The text of state.json: missing, not readable as JSON, or what it parses to.
pub data StateFile : Type 0 where
  no_state garbled_state : StateFile
  state_holds : Value → StateFile

pub data StateProblem : Type 0 where
  state_not_read state_not_object state_targets_not_object : StateProblem

abbrev nested : Option Value → List (String × Value) × Option StateProblem
nested none = ([], none)
nested (some (object ts)) = (items ts, none)
nested (some _) = ([], some state_targets_not_object)

unfoldable pub read_state_checked : StateFile → List (String × Value) × Option StateProblem
unfolding lookup items
read_state_checked no_state = ([], none)
read_state_checked garbled_state = ([], some state_not_read)
read_state_checked (state_holds (object fs)) =
    if is_some (lookup "schema_version" (items fs))
    then nested (lookup "targets" (items fs))
    else (items fs, none)
read_state_checked (state_holds _) = ([], some state_not_object)

-- `record.get("last_checked") if isinstance(record, dict) else None`
abbrev stamp_of : Value → Option Value
stamp_of (object fs) = lookup "last_checked" (items fs)
stamp_of _ = none

-- The time of a stamp, none for a record that is passed over; and none for a `TypeError`.
abbrev seen_text : (String → Option ℕ) → Value → Option (Option ℕ)
seen_text strptime (text s) = some (strptime s)
seen_text strptime _ = none

abbrev seen_of : (String → Option ℕ) → Option Value → Option (Option ℕ)
seen_of strptime none = some none
seen_of strptime (some v) = if is_truthy v then seen_text strptime v else some none

abbrev pub age : ℕ → ℕ → ℤ
age now seen = if leb seen now then pos (now - seen) else negsuc (seen - now - 1)

abbrev pub older : ℤ → Option ℤ → ℤ
older a none = a
older a (some b) = if ltb_ℤ a b then b else a

abbrev with_age : ℕ → Option (Option ℕ) → Option (Option ℤ) → Option (Option ℤ)
with_age now none rest = none
with_age now (some none) rest = rest
with_age now (some (some seen)) none = none
with_age now (some (some seen)) (some oldest) = some (some (older (age now seen) oldest))

-- The outer option is none where the source raises.
unfoldable pub stale_seconds : (String → Option ℕ) → ℕ → List (String × Value) → Option (Option ℤ)
unfolding lookup items is_truthy
stale_seconds strptime now [] = some none
stale_seconds strptime now ((url, record') ∷ rest) =
    with_age now (seen_of strptime (stamp_of record')) (stale_seconds strptime now rest)

pub data HistoryWarning : Type 0 where
  history_unreadable history_uninitialised : HistoryWarning

-- Here a missing file cannot be opened either.
unfoldable pub history_warnings : Bool → File → List HistoryWarning
history_warnings locked absent = history_unreadable ∷ []
history_warnings locked directory = history_unreadable ∷ []
history_warnings locked no_schema =
    (if locked then history_unreadable else history_uninitialised) ∷ []
history_warnings locked (tables db) = if locked then history_unreadable ∷ [] else []

abbrev pub window_days : String → Option ℕ
window_days w =
    if str_eq w "1d"
    then some 1
    else if str_eq w "7d"
    then some 7
    else if str_eq w "30d"
    then some 30
    else none

pub record HistoryRow : Type 0 where
  pub uptime : Option Uptime
  pub p50 : Option ℕ
  pub p95 : Option ℕ

abbrev pub p50_of : Option Percentiles → Option ℕ
p50_of none = none
p50_of (some p) = some p.p50

abbrev pub p95_of : Option Percentiles → Option ℕ
p95_of none = none
p95_of (some p) = p.p95

abbrev pub row_of : Read Percentiles → Read Uptime → Option HistoryRow
row_of failed u = none
row_of (got p) failed = none
row_of (got p) (got u) = some (record { uptime = u; p50 = p50_of p; p95 = p95_of p })

abbrev pub put_row :
    String
    → Option HistoryRow
    → List (String × HistoryRow)
    → (List (String × HistoryRow) → Option (List (String × HistoryRow)))
    → Option (List (String × HistoryRow))
put_row url none rows rest = none
put_row url (some row) rows rest = rest (insert url row rows)

-- The loop over the targets; none where a read raises. The rounding is left out.
unfoldable pub history_rows :
    ℕ → Bool → File → List String → List (String × HistoryRow) → Option (List (String × HistoryRow))
unfolding insert latency_percentiles uptime_pct
history_rows since locked file [] rows = some rows
history_rows since locked file (url ∷ urls) rows =
    put_row url
      (row_of (latency_percentiles url since none locked file) (uptime_pct url since locked file))
      rows (history_rows since locked file urls)

unfoldable pub history_payload :
    ℕ → ℕ → Bool → File → List String → Option (List (String × HistoryRow))
unfolding history_rows
history_payload now days locked file urls = history_rows (now - days * 86400) locked file urls []

pub data DataWarning : Type 0 where
  state_unreadable : StateProblem → DataWarning
  of_history : HistoryWarning → DataWarning

abbrev state_first : Option StateProblem → List DataWarning → List DataWarning
state_first none ws = ws
state_first (some p) ws = state_unreadable p ∷ ws

unfoldable pub data_warnings : Bool → File → Option StateProblem → List DataWarning
unfolding history_warnings
data_warnings locked file problem =
    state_first problem (map of_history (history_warnings locked file))

pub data StatusReply : Type 0 where
  status_served :
      List (String × Value) → Option ℤ → Option StateProblem → List DataWarning → StatusReply

-- "/api/status"; none where `stale_seconds` raises.
abbrev status_with :
    List (String × Value) × Option StateProblem
    → List DataWarning
    → Option (Option ℤ)
    → Option StatusReply
status_with state warnings none = none
status_with state warnings (some stale) = some (status_served state.0 stale state.1 warnings)

unfoldable pub get_status : (String → Option ℕ) → ℕ → StateFile → Bool → File → Option StatusReply
unfolding read_state_checked stale_seconds data_warnings
get_status strptime now state locked file =
    let read = read_state_checked state in
    status_with read (data_warnings locked file read.1) (stale_seconds strptime now read.0)

-- `list(targets)`
abbrev pub urls_of : List (String × Value) → List String
urls_of [] = []
urls_of ((url, v) ∷ rest) = url ∷ urls_of rest

pub data HistoryReply : Type 0 where
  bad_window query_failed : HistoryReply
  history_served :
      String → List (String × HistoryRow) → Option StateProblem → List DataWarning → HistoryReply

abbrev history_reply :
    String
    → Option StateProblem
    → List DataWarning
    → Option (List (String × HistoryRow))
    → HistoryReply
history_reply window problem warnings none = query_failed
history_reply window problem warnings (some rows) = history_served window rows problem warnings

abbrev history_for : ℕ → StateFile → Bool → File → String → Option ℕ → HistoryReply
history_for now state locked file window none = bad_window
history_for now state locked file window (some days) =
    let read = read_state_checked state in
    history_reply window read.1 (data_warnings locked file read.1)
      (history_payload now days locked file (urls_of read.0))

-- "/api/history"
unfoldable pub get_history : ℕ → StateFile → Bool → File → Option String → HistoryReply
unfolding read_state_checked history_payload data_warnings
get_history now state locked file asked =
    let window = get_or asked "7d" in history_for now state locked file window (window_days window)
