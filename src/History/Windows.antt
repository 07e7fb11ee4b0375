-- ===== src/History/Windows.antt =====
-- history.py, `latency_trend_windows`: the two windows that the trend compares.
use vigil_sre.Prelude.{
  ℕ, ◌+◌, ◌-◌, ◌*◌, ◌≤◌, String, Bool, true, false, Option, none, some, List, [], ◌∷◌, filter,
  length, if◌then◌else◌, ◌≡◌, refl, ap, arith,
}
use vigil_sre.History.{Row, Database}
use vigil_sre.History.Reads.{
  tables, read_only, is_selected, ttfbs, min_reaching, Percentiles, percentiles_of, percentile_rows,
  latency_percentiles, latency_trend_windows,
}
use vigil_sre.History.Rank.{min_reaching_lem, nearest_rank-some}

unfoldable pub samples_of : Option Percentiles → ℕ
samples_of none = 0
samples_of (some p) = p.samples

-- The measured probes that the two windows hold together, if both were read.
unfoldable pub samples_of_both : Option (Option Percentiles × Option Percentiles) → Option ℕ
unfolding samples_of
samples_of_both none = none
samples_of_both (some (recent, previous)) = some (samples_of recent + samples_of previous)

samples_lem :
    (xs : List ℕ) (p95 : Option ℕ) (total : ℕ)
    → samples_of (percentiles_of (min_reaching 50 xs) p95 (length xs) total) ≡ length xs
unfolding samples_of min_reaching
samples_lem [] p95 total = refl
samples_lem (x ∷ xs) p95 total =
    let (v, e) = nearest_rank-some 50 x xs (omega arith) in
    rw (min_reaching_lem 50 (x ∷ xs) (omega arith) (omega arith), e) refl

module _ (url : String) (earliest boundary : ℕ) where
  ttfbs_split :
      (rs : List Row)
      → earliest ≤ boundary
      → length (ttfbs (filter (is_selected url boundary none) rs))
          + length (ttfbs (filter (is_selected url earliest (some boundary)) rs))
        ≡ length (ttfbs (filter (is_selected url earliest none) rs))
  unfolding ttfbs is_selected
  ttfbs_split [] h = refl
  ttfbs_split (r ∷ rs) h = ground (arith, ttfbs_split rs)

-- If both reads succeed, the two windows together hold as many measured probes as one query over
-- their whole time does. A fault of either read is raised, and no window is taken for empty.
pub latency_trend_windows_lem :
    (url : String) (window_days now : ℕ) (locked locked' : Bool) (db : Database)
    → samples_of_both (latency_trend_windows url window_days now locked locked' (tables db)) ≡ (
        if locked
        then none
        else if locked'
        then none
        else some (samples_of (percentile_rows url (now - window_days * 2 * 86400) none db)))
unfolding latency_trend_windows latency_percentiles samples_of_both percentile_rows read_only
latency_trend_windows_lem url d now true locked' db = refl
latency_trend_windows_lem url d now false true db = refl
latency_trend_windows_lem url d now false false db =
    rw (samples_lem _ _ _, samples_lem _ _ _, samples_lem _ _ _)
      (ap some (ttfbs_split url (now - d * 2 * 86400) (now - d * 86400) db.results (omega arith)))
