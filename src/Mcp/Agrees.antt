-- ===== src/Mcp/Agrees.antt =====
-- mcp_server.py, `_get_trend`, and main.py, `_trend_lines`: two readers of one verdict.
use vigil_sre.Prelude.{
  ◌≡◌, refl, sym, ap, ◌∙◌, String, Bool, true, false, Option, none, some, List, [], ◌∷◌, eq_iff,
  if◌then◌else◌, Option-cases, inl, inr, arith,
}
use vigil_sre.Prelude.Dict.{lookup, insert, contains, lookup-insert}
use vigil_sre.Diagnostics.Trend.{Trend, latency_trend}
use vigil_sre.History.Reads.{Percentiles, latency_trend_windows}
use vigil_sre.Views.{HistoryWarning, urls_of, read_state_checked}
use vigil_sre.Mcp.Tools.{
  Server, trends, Called, returned, payload, window_of, verdicts_of, trend_answer, trend_call,
  is_absent, tool_failed, no_history_database,
}
use vigil_sre.Run.Summary.{trend_rows}

-- The verdict on a target's windows.
abbrev judged : Option (Option Percentiles × Option Percentiles) → Option Trend
judged none = none
judged (some (recent, previous)) = some (latency_trend (window_of recent) (window_of previous))

module _ (s : Server) where
  verdict_at : String → Option Trend
  verdict_at url = judged (latency_trend_windows url 7 s.now s.locked s.locked s.history)

  first_row :
      (url j : String) (t : Trend) (urls : List String) (rows : List (String × Trend))
      → verdict_at url ≡ some t
      → lookup j rows ≡ (if contains urls j then verdict_at j else none)
      → lookup j ((url, t) ∷ rows) ≡ (if contains (url ∷ urls) j then verdict_at j else none)
  unfolding lookup contains
  first_row url j t urls rows here found = ground (arith, eq_iff url j)

  kept_row :
      (url j : String) (t : Trend) (urls : List String) (vs old : List (String × Trend))
      → verdict_at url ≡ some t
      → lookup j vs ≡ (if contains urls j then verdict_at j else lookup j (insert url t old))
      → lookup j vs ≡ (if contains (url ∷ urls) j then verdict_at j else lookup j old)
  unfolding contains
  kept_row url j t urls vs old here kept = ground (arith, eq_iff url j, lookup-insert url j t old)

  abbrev Rows : List String → List (String × Trend) → Type 0
  Rows urls rows =
      (trend_rows s.now s.locked s.history urls ≡ some rows)
      × ((j : String) → lookup j rows ≡ (if contains urls j then verdict_at j else none))

  verdicts_of-Rows :
      (urls : List String) (old vs : List (String × Trend))
      → verdicts_of s urls old ≡ some vs
      → ((rows : List (String × Trend)) × Rows urls rows)
        × ((j : String) → lookup j vs ≡ (if contains urls j then verdict_at j else lookup j old))
  unfolding verdicts_of trend_rows verdict_at lookup contains
  verdicts_of-Rows [] old vs h = (([], (refl, λ j. refl)), λ j. ground arith)
  verdicts_of-Rows (url ∷ urls) old vs h =
      elim (Option-cases (latency_trend_windows url 7 s.now s.locked s.locked s.history)) [
        | inl e ↦ cc (rw e at h)
        | inr ((recent, previous), e) ↦
            let t = latency_trend (window_of recent) (window_of previous) in
            let here : verdict_at url ≡ some t = ap judged e in
            let ((rows, (listed, found)), kept) =
              verdicts_of-Rows urls (insert url t old) vs (rw e at h) in
            (
              (
                (url, t) ∷ rows,
                (rw (e, listed) refl, λ j. first_row url j t urls rows here (found j)),
              ),
              λ j. kept_row url j t urls vs old here (kept j),
            )
      ]

abbrev trends_in : Called → List (String × Trend)
trends_in (returned (payload (trends vs ws))) = vs
trends_in _ = []

-- If the tool "get_trend" answers with verdicts, then the trend section of "--report" at that time,
-- over the same file and the monitored targets, can be computed too, and gives each target the same
-- verdict, and a verdict to no other.
pub trend_call_lem :
    (s : Server) (j : String) (vs : List (String × Trend)) (ws : List HistoryWarning)
    → trend_call s ≡ returned (payload (trends vs ws))
    → (rows : List (String × Trend)) × (trend_rows s.now s.locked s.history
          (urls_of (read_state_checked s.state).0)
        ≡ some rows)
      × (lookup j vs ≡ lookup j rows)
unfolding trend_call lookup
trend_call_lem s j vs ws h = go (is_absent s.history) (verdicts_of s urls []) refl h
  where
    urls : List String
    urls = urls_of (read_state_checked s.state).0

    go :
        (missing : Bool) (o : Option (List (String × Trend)))
        → verdicts_of s urls [] ≡ o
        → (if missing then returned (tool_failed no_history_database) else trend_answer s o)
          ≡ returned (payload (trends vs ws))
        → (rows : List (String × Trend)) × (trend_rows s.now s.locked s.history urls ≡ some rows)
          × (lookup j vs ≡ lookup j rows)
    go true o e k = cc
    go false none e k = cc
    go false (some vs') e k =
        let ((rows, (listed, found)), kept) = verdicts_of-Rows s urls [] vs' e in
        (rows, listed, ap (lookup j) (sym (ap trends_in k)) ∙ kept j ∙ sym (found j))
