-- ===== src/Diagnostics/Phases.antt =====
-- diagnostics.py: the timings of one successful probe, and what is derived from them.
-- Times are in microseconds; a quotient of floats is kept as an exact fraction.
use vigil_sre.Prelude.{ℕ, ◌*◌, String, Bool, Option, none, some, leb, if◌then◌else◌}
use vigil_sre.Prelude.Int.{ℤ}

pub record Ratio : Type 0 where
  pub num : ℕ
  pub den : ℕ

pub record ProbePhases : Type 0 where
  pub url : String
  pub http_status : ℕ
  pub ttfb : ℕ
  pub transfer : ℕ
  pub body_bytes : ℕ
  pub connection_reused : Bool
  pub dns : Option ℕ
  pub connect_total : Option ℕ
  pub rtt : Option ℕ
  pub tls : Option ℕ
  pub server_processing : Option ℕ
  -- in bits per second
  pub goodput : Option Ratio
  pub tls_cert_days_left : Option ℤ
  pub alpn_protocol : Option String
  pub h2_supported : Option Bool

-- What the sampling of the connection measured before the probe.
pub record ConnectionSample : Type 0 where
  pub rtt : Option ℕ
  pub tls : Option ℕ
  pub alpn_protocol : Option String
  pub h2_supported : Option Bool

abbrev pub bandwidth_min_sample_bytes : ℕ
bandwidth_min_sample_bytes = 262144

abbrev pub default_window_bytes : ℕ
default_window_bytes = 65536

-- A second, in microseconds.
abbrev pub second : ℕ
second = 1000000

-- `bandwidth_confidence(phases) == CONFIDENCE_HIGH`
unfoldable pub is_bandwidth_confidence_high : ProbePhases → Bool
is_bandwidth_confidence_high ph = leb bandwidth_min_sample_bytes ph.body_bytes

-- `goodput_bps / 8.0 * (rtt_ms / 1000.0)`
abbrev pub window_ratio : Ratio → ℕ → Ratio
window_ratio goodput rtt = record { num = goodput.num * rtt; den = 8 * (goodput.den * second) }

abbrev pub window_of : Option Ratio → Option ℕ → Option Ratio
window_of (some goodput) (some rtt) = some (window_ratio goodput rtt)
window_of (some goodput) none = none
window_of none _ = none

unfoldable pub effective_window_bytes : ProbePhases → Option Ratio
effective_window_bytes ph = window_of ph.goodput ph.rtt

abbrev pub ceiling_of : Option ℕ → Option Ratio
ceiling_of none = none
ceiling_of (some rtt) =
    if leb rtt 0
    then none
    else some (record { num = 8 * (default_window_bytes * second); den = rtt })

unfoldable pub default_window_ceiling_bps : ProbePhases → Option Ratio
default_window_ceiling_bps ph = ceiling_of ph.rtt
