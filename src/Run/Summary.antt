-- ===== src/Run/Summary.antt =====
-- main.py, `_generate_report` and `_trend_lines`: the figures of "--report", without their layout.
use vigil_sre.Prelude.{
  ℕ, ◌-◌, ◌*◌, String, Bool, Option, none, some, List, [], ◌∷◌, filter, leb, ltb, if◌then◌else◌,
}
use vigil_sre.Diagnostics.Trend.{Window, Trend, latency_trend}
use vigil_sre.History.Reads.{
  File, Read, failed, got, Uptime, Percentiles, uptime_pct, latency_percentiles,
  latency_trend_windows,
}

abbrev pub report_windows_days : List ℕ
report_windows_days = 1 ∷ 7 ∷ 30 ∷ []

abbrev pub or_retention : ℕ → List ℕ → List ℕ
or_retention retention [] = retention ∷ []
or_retention retention (w ∷ ws) = w ∷ ws

-- `windows`
unfoldable pub shown_windows : ℕ → List ℕ
shown_windows retention =
    or_retention retention (filter (λ (w : ℕ). leb w retention) report_windows_days)

-- `max(windows)`
unfoldable pub widest : List ℕ → ℕ
widest [] = 0
widest (w ∷ ws) = let rest = widest ws in if ltb w rest then rest else w

abbrev with_cell : Read Uptime → Option (List (Option Uptime)) → Option (List (Option Uptime))
with_cell failed rest = none
with_cell (got u) none = none
with_cell (got u) (some cells) = some (u ∷ cells)

-- A target's cells of uptime, one for each window; none where a read raises.
unfoldable pub uptime_cells : String → ℕ → Bool → File → List ℕ → Option (List (Option Uptime))
unfolding uptime_pct
uptime_cells url now locked file [] = some []
uptime_cells url now locked file (w ∷ ws) =
    with_cell (uptime_pct url (now - w * 86400) locked file) (uptime_cells url now locked file ws)

pub record ReportRow : Type 0 where
  pub url : String
  pub uptimes : List (Option Uptime)
  pub percentiles : Option Percentiles

abbrev report_row : String → Option (List (Option Uptime)) → Read Percentiles → Option ReportRow
report_row url none p = none
report_row url (some cells) failed = none
report_row url (some cells) (got p) = some (record { url = url; uptimes = cells; percentiles = p })

abbrev with_report_row : Option ReportRow → Option (List ReportRow) → Option (List ReportRow)
with_report_row none rest = none
with_report_row (some row) none = none
with_report_row (some row) (some rows) = some (row ∷ rows)

-- The table of `_generate_report`.
unfoldable pub report_rows : ℕ → ℕ → Bool → File → List String → Option (List ReportRow)
unfolding shown_windows widest uptime_cells latency_percentiles
report_rows retention now locked file [] = some []
report_rows retention now locked file (url ∷ urls) =
    let windows = shown_windows retention in
    with_report_row
      (report_row url (uptime_cells url now locked file windows)
        (latency_percentiles url (now - widest windows * 86400) none locked file))
      (report_rows retention now locked file urls)

-- The arguments of `latency_trend`, of one window.
abbrev pub window_or_empty : Option Percentiles → Window
window_or_empty none = record { p95 = none; samples = 0; total = 0 }
window_or_empty (some p) = record { p95 = p.p95; samples = p.samples; total = p.total }

abbrev pub with_trend :
    String
    → Option (Option Percentiles × Option Percentiles)
    → Option (List (String × Trend))
    → Option (List (String × Trend))
with_trend url none rest = none
with_trend url (some windows) none = none
with_trend url (some (recent, previous)) (some rest) =
    some ((url, latency_trend (window_or_empty recent) (window_or_empty previous)) ∷ rest)

-- The rows of `_trend_lines`; none is the section that says that the history cannot be read.
unfoldable pub trend_rows : ℕ → Bool → File → List String → Option (List (String × Trend))
unfolding latency_trend latency_trend_windows
trend_rows now locked file [] = some []
trend_rows now locked file (url ∷ urls) =
    with_trend url (latency_trend_windows url 7 now locked locked file)
      (trend_rows now locked file urls)
