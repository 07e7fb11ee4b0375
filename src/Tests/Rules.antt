-- ===== src/Tests/Rules.antt =====
-- The rules of diagnostics.py on maintenance, trends and reminders.
use vigil_sre.Prelude.{◌≡◌, refl, true, some, [], ◌∷◌, arith, ◌↔◌, is_some}
use vigil_sre.Diagnostics.Maintenance
use vigil_sre.Diagnostics.Maintenance.{in_maintenance}
use vigil_sre.Diagnostics.Maintenance.Week.{in_maintenance_lem, AnyCovers, minute_of_week}
use vigil_sre.Diagnostics.Trend.{latency_trend, degrading, improving}
use vigil_sre.Diagnostics.Trend.Verdicts.{latency_trend_lem, Rises, Falls, Comparable}
use vigil_sre.Tests.Data.{last_week, this_week}

-- Saturdays and Sundays from 22:00 to 02:30.
abbrev weekend : Maintenance.Window
weekend = record { days = some (5 ∷ 6 ∷ []); start = some (22, 0); end = some (2, 30) }

in_maintenance_lem_example :
    (is_some (in_maintenance (some (weekend ∷ [])) 340000) ≡ true)
    ↔ AnyCovers (weekend ∷ []) (minute_of_week 340000)
in_maintenance_lem_example =
    in_maintenance_lem 340000 (weekend ∷ []) ((omega arith, omega arith), tt)

latency_trend_lem_example :
    (((latency_trend this_week last_week).verdict ≡ degrading)
      ↔ (Rises 200000 320000 × Comparable this_week last_week))
    × (((latency_trend this_week last_week).verdict ≡ improving)
        ↔ (Falls 200000 320000 × Comparable this_week last_week))
latency_trend_lem_example = latency_trend_lem this_week last_week 320000 200000 (record {
  recent_p95 = refl;
  previous_p95 = refl;
  previous_pos = omega arith;
  recent_samples = omega arith;
  previous_samples = omega arith;
})
