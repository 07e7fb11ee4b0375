-- ===== src/Diagnostics/Trend.antt =====
-- diagnostics.py, `latency_trend`: two windows of one target compared.
-- A p95 is in thousandths of a millisecond. The percentages, floats in the source, are compared as
-- exact fractions, multiplied out.
pub mod Verdicts
use vigil_sre.Prelude.{
  ℕ, ◌+◌, ◌-◌, ◌*◌, Bool, ◌&&◌, ◌||◌, Option, none, some, ltb, leb, if◌then◌else◌, min,
}

pub data Verdict : Type 0 where
  no_data too_few_samples ok incomparable degrading improving : Verdict

pub data Suppression : Type 0 where
  success_floor success_gap relative absolute : Suppression

abbrev pub trend_min_change_pct : ℕ
trend_min_change_pct = 50

-- 50 ms
abbrev pub trend_min_change : ℕ
trend_min_change = 50000

abbrev pub trend_min_samples : ℕ
trend_min_samples = 20

abbrev pub trend_min_success_pct : ℕ
trend_min_success_pct = 90

abbrev pub trend_max_success_gap_pct : ℕ
trend_max_success_gap_pct = 5

-- One window: its p95 if it has one, the probes that answered, and all its probes.
pub record Window : Type 0 where
  pub p95 : Option ℕ
  pub samples : ℕ
  pub total : ℕ

pub record Trend : Type 0 where
  pub verdict : Verdict
  pub suppressed_by : Option Suppression

-- `abs(a - b)`
abbrev pub distance : ℕ → ℕ → ℕ
distance a b = (a - b) + (b - a)

-- `100.0 * samples / total < TREND_MIN_SUCCESS_PCT`
unfoldable pub below_floor : Window → Bool
below_floor w = ltb (100 * w.samples) (trend_min_success_pct * w.total)

-- `abs(recent_rate - previous_rate) > TREND_MAX_SUCCESS_GAP_PCT`
unfoldable pub gap_too_wide : Window → Window → Bool
gap_too_wide r p =
    ltb (trend_max_success_gap_pct * (r.total * p.total))
      (distance (100 * (r.samples * p.total)) (100 * (p.samples * r.total)))

-- The comparison of the rates: why the windows cannot be compared, if they cannot.
unfoldable pub incomparability : Window → Window → Option Suppression
unfolding below_floor gap_too_wide
incomparability r p =
    if ltb 0 r.total && ltb 0 p.total
    then if below_floor r || below_floor p
      then some success_floor
      else if gap_too_wide r p
      then some success_gap
      else none
    else none

-- The floors on the magnitude, and the direction.
unfoldable pub magnitude : ℕ → ℕ → Trend
magnitude recent previous =
    if ltb (100 * distance recent previous) (trend_min_change_pct * previous)
    then record { verdict = ok; suppressed_by = some relative }
    else if ltb (distance recent previous) trend_min_change
    then record { verdict = ok; suppressed_by = some absolute }
    else record {
      verdict = if ltb previous recent then degrading else improving;
      suppressed_by = none;
    }

-- The tests behind the first one, with both p95 at hand.
unfoldable pub compare_windows : Window → Window → ℕ → ℕ → Trend
unfolding incomparability magnitude
compare_windows r p recent previous =
    if ltb (min r.samples p.samples) trend_min_samples
    then record { verdict = too_few_samples; suppressed_by = none }
    else elim (incomparability r p) [
      | some why ↦ record { verdict = incomparable; suppressed_by = some why }
      | none ↦ magnitude recent previous
    ]

unfoldable pub trend_of : Window → Window → Option ℕ → Option ℕ → Trend
unfolding compare_windows
trend_of r p (some recent) (some previous) =
    if leb previous 0
    then record { verdict = no_data; suppressed_by = none }
    else compare_windows r p recent previous
trend_of r p (some recent) none = record { verdict = no_data; suppressed_by = none }
trend_of r p none _ = record { verdict = no_data; suppressed_by = none }

unfoldable pub latency_trend : Window → Window → Trend
unfolding trend_of
latency_trend recent previous = trend_of recent previous recent.p95 previous.p95
