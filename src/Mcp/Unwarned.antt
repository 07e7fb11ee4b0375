-- ===== src/Mcp/Unwarned.antt =====
-- mcp_server.py, `_get_history`: what an answer without a warning is made of.
use vigil_sre.Prelude.{ℕ, ◌≡◌, String, Bool, false, none, some, List, [], if◌then◌else◌}
use vigil_sre.Prelude.Dict.{lookup, contains}
use vigil_sre.History.{Database}
use vigil_sre.History.Reads.{File, tables, uptime_rows, percentile_rows}
use vigil_sre.Views.{HistoryRow, p50_of, p95_of}
use vigil_sre.Mcp.Tools.{history_of, Called, returned, payload}

-- A target's figures, straight from the tables.
unfoldable pub figures : ℕ → Database → String → HistoryRow
figures since db url =
    let percentiles = percentile_rows url since none db in
    record { uptime = uptime_rows url since db; p50 = p50_of percentiles; p95 = p95_of percentiles }

-- The file has been read, and its tables say what the rows hold for a target.
abbrev pub FromTables : ℕ → Bool → File → List String → List (String × HistoryRow) → String → Type 0
FromTables since locked file urls rows j =
    (db : Database) × (file ≡ tables db)
    × (locked ≡ false)
    × (lookup j rows ≡ (if contains urls j then some (figures since db j) else none))

abbrev rows_in : Called → List (String × HistoryRow)
rows_in (returned (payload (history_of w rows ws))) = rows
rows_in _ = []
