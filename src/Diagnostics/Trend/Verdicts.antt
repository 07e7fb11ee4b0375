-- ===== src/Diagnostics/Trend/Verdicts.antt =====
-- diagnostics.py, `latency_trend`: what a verdict says of the two windows.
use vigil_sre.Prelude.{ℕ, ◌+◌, ◌*◌, ◌≤◌, ◌<◌, ◌≡◌, ◌↔◌, some, arith}
use vigil_sre.Diagnostics.Trend.{Window, degrading, improving, latency_trend}

-- Both windows measured, and enough probes answered in each.
pub record Measured (r p : Window) (recent previous : ℕ) : Type 0 where
  pub recent_p95 : r.p95 ≡ some recent
  pub previous_p95 : p.p95 ≡ some previous
  pub previous_pos : 0 < previous
  pub recent_samples : 20 ≤ r.samples
  pub previous_samples : 20 ≤ p.samples

-- With both totals known, nine in ten probes answered in each window, and the two rates differ by
-- at most five points.
abbrev pub Comparable : Window → Window → Type 0
Comparable r p =
    (0 < r.total)
    → (0 < p.total)
    → (90 * r.total ≤ 100 * r.samples)
      × (90 * p.total ≤ 100 * p.samples)
      × (100 * (r.samples * p.total) ≤ 100 * (p.samples * r.total) + 5 * (r.total * p.total))
      × (100 * (p.samples * r.total) ≤ 100 * (r.samples * p.total) + 5 * (r.total * p.total))

-- A rise by at least half, and by at least 50 ms.
abbrev pub Rises : ℕ → ℕ → Type 0
Rises previous recent = (previous + 50000 ≤ recent) × (150 * previous ≤ 100 * recent)

-- A fall by at least half, and by at least 50 ms.
abbrev pub Falls : ℕ → ℕ → Type 0
Falls previous recent = (recent + 50000 ≤ previous) × (100 * recent ≤ 50 * previous)

-- Of two measured windows the trend is degrading exactly if they are comparable and the p95 rises
-- by half and by 50 ms at least, and improving exactly if they are and it falls by as much.
pub latency_trend_lem :
    (r p : Window) (recent previous : ℕ)
    → Measured r p recent previous
    → (((latency_trend r p).verdict ≡ degrading) ↔ (Rises previous recent × Comparable r p))
      × (((latency_trend r p).verdict ≡ improving) ↔ (Falls previous recent × Comparable r p))
unfolding latency_trend
latency_trend_lem r p recent previous h =
    ((λ v. ground arith, λ c. ground arith), (λ v. ground arith, λ c. ground arith))
