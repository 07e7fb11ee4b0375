-- ===== src/Run/Report.antt =====
-- main.py: what a finished round says of itself: the exit code and what it counts.
use vigil_sre.Prelude.{
  ℕ, ◌+◌, String, Bool, false, ◌&&◌, ◌||◌, Option, none, some, List, [], ◌∷◌, ltb, if◌then◌else◌,
  truthy,
}
use vigil_sre.State.Manager.{Targets, Document, absent, unreadable, not_an_object, wrapped, flat}

pub record RunReport : Type 0 where
  pub undelivered_by_kind : List (String × ℕ)
  pub internal_errors : ℕ
  pub state_write_failures : ℕ

-- `RunReport.incomplete`
unfoldable pub incomplete : RunReport → Bool
incomplete r = ltb 0 r.internal_errors || ltb 0 r.state_write_failures

unfoldable pub count_pending : Targets → ℕ
count_pending [] = 0
count_pending ((k, r) ∷ ts) = (if truthy r.alert_pending then 1 else 0) + count_pending ts

-- Under a root with `schema_version` but no `targets` no value is a record.
unfoldable pub undelivered_alerts : Document → ℕ
unfolding count_pending
undelivered_alerts absent = 0
undelivered_alerts unreadable = 0
undelivered_alerts not_an_object = 0
undelivered_alerts (wrapped none) = 0
undelivered_alerts (wrapped (some ts)) = count_pending ts
undelivered_alerts (flat ts) = count_pending ts

-- `sum(advisory.values())`
unfoldable pub sum_values : List (String × ℕ) → ℕ
sum_values [] = 0
sum_values ((k, n) ∷ d) = n + sum_values d

unfoldable pub alerts_undelivered : Document → List (String × ℕ) → ℕ
unfolding undelivered_alerts sum_values
alerts_undelivered file advisory = undelivered_alerts file + sum_values advisory

unfoldable pub exit_code : Bool → ℕ → ℕ → Bool → ℕ
exit_code strict down_count undelivered incomplete =
    if ltb 0 undelivered || incomplete then 1 else if strict && ltb 0 down_count then 1 else 0

unfoldable pub finish_run : Bool → ℕ → Document → Option RunReport → ℕ
unfolding alerts_undelivered exit_code
finish_run strict down_count file none =
    exit_code strict down_count (alerts_undelivered file []) false
finish_run strict down_count file (some report) =
    exit_code strict down_count (alerts_undelivered file report.undelivered_by_kind)
      (incomplete report)
