-- ===== src/Diagnostics/Findings.antt =====
-- diagnostics.py, `analyze` and `degraded_reason`: the findings about a successful probe, and
-- whether they make the target DEGRADED. An evidence is its numbers; the recommendations, which
-- are fixed texts, are left out.
pub mod Reasons
use vigil_sre.Prelude.{
  ℕ, ◌+◌, ◌*◌, String, Bool, true, false, ◌&&◌, Option, none, some, List, [], ◌∷◌, leb, ltb,
  if◌then◌else◌,
}
use vigil_sre.Prelude.Int.{ℤ, ltb_ℤ}
use vigil_sre.Diagnostics.Cert.{cert_crit_days, cert_warn_days}
use vigil_sre.Diagnostics.Phases.{
  Ratio, ProbePhases, is_bandwidth_confidence_high, effective_window_bytes,
  default_window_ceiling_bps,
}

pub data Code : Type 0 where
  high_rtt slow_dns tls_overhead slow_backend window_limited cert_expiring http2_unsupported : Code

pub data Severity : Type 0 where
  info warn critical : Severity

-- The measured numbers, in the order of the text.
pub data Evidence : Type 0 where
  over : ℕ → ℕ → Evidence
  window : Ratio → ℕ → Option ℕ → Option Ratio → Evidence
  days_below : ℤ → ℤ → Evidence
  alpn : Option String → ℕ → ℕ → Evidence

pub record Diagnosis : Type 0 where
  pub code : Code
  pub severity : Severity
  pub evidence : Evidence

-- `RTT_HIGH_MS` and the other thresholds, in microseconds
abbrev pub rtt_high : ℕ
rtt_high = 100000

abbrev pub dns_slow : ℕ
dns_slow = 200000

abbrev pub ttfb_backend_slack : ℕ
ttfb_backend_slack = 500000

abbrev pub tls_overhead_slack : ℕ
tls_overhead_slack = 50000

abbrev pub degraded_ttfb : ℕ
degraded_ttfb = 1500000

-- A value that is there and above the threshold.
abbrev pub above : Code → Option ℕ → ℕ → Option Diagnosis
above code none threshold = none
above code (some x) threshold =
    if ltb threshold x
    then some (record { code = code; severity = warn; evidence = over x threshold })
    else none

-- Rules 1, 2 and 4.
unfoldable pub rule_rtt : ProbePhases → ℕ → Option Diagnosis
rule_rtt ph high = above high_rtt ph.rtt high

unfoldable pub rule_dns : ProbePhases → Option Diagnosis
rule_dns ph = above slow_dns ph.dns dns_slow

unfoldable pub rule_backend : ProbePhases → ℕ → Option Diagnosis
rule_backend ph slack = above slow_backend ph.server_processing slack

-- Rule 3.
unfoldable pub tls_rule : Option ℕ → Option ℕ → Option Diagnosis
tls_rule (some tls) (some rtt) = above tls_overhead (some tls) (2 * rtt + tls_overhead_slack)
tls_rule (some tls) none = none
tls_rule none _ = none

unfoldable pub rule_tls : ProbePhases → Option Diagnosis
unfolding tls_rule
rule_tls ph = tls_rule ph.tls ph.rtt

-- `eff_window < DEFAULT_WINDOW_BYTES * WINDOW_LIMITED_FACTOR`, the product being 58982.4
abbrev pub is_window_limited : Ratio → Bool
is_window_limited w = ltb (10 * w.num) (589824 * w.den)

-- Rule 5.
unfoldable pub window_finding : Option Ratio → ProbePhases → Option Diagnosis
unfolding default_window_ceiling_bps
window_finding none ph = none
window_finding (some w) ph =
    if is_window_limited w
    then some (record {
      code = window_limited;
      severity = warn;
      evidence = window w ph.body_bytes ph.rtt (default_window_ceiling_bps ph);
    })
    else none

unfoldable pub rule_window : ProbePhases → Option Diagnosis
unfolding effective_window_bytes is_bandwidth_confidence_high window_finding
rule_window ph =
    if is_bandwidth_confidence_high ph then window_finding (effective_window_bytes ph) ph else none

-- Rule 6.
unfoldable pub cert_rule : Option ℤ → Option Diagnosis
cert_rule none = none
cert_rule (some days) =
    if ltb_ℤ days cert_crit_days
    then some (record {
      code = cert_expiring;
      severity = critical;
      evidence = days_below days cert_crit_days;
    })
    else if ltb_ℤ days cert_warn_days
    then some (record {
      code = cert_expiring;
      severity = warn;
      evidence = days_below days cert_warn_days;
    })
    else none

-- Rule 7.
unfoldable pub http2_rule : Option Bool → Option ℕ → Option String → ℕ → Option Diagnosis
http2_rule (some false) (some rtt) protocol high =
    if ltb high rtt
    then some
        (record { code = http2_unsupported; severity = info; evidence = alpn protocol rtt high })
    else none
http2_rule (some false) none protocol high = none
http2_rule (some true) rtt protocol high = none
http2_rule none rtt protocol high = none

-- `findings.append(…)`, if the rule fires
abbrev pub fire : Option Diagnosis → List Diagnosis → List Diagnosis
fire none ds = ds
fire (some d) ds = d ∷ ds

unfoldable pub analyze : ProbePhases → ℕ → ℕ → List Diagnosis
unfolding rule_rtt rule_dns rule_tls rule_backend rule_window cert_rule http2_rule
analyze ph rtt_high_limit backend_slack = fire (rule_rtt ph rtt_high_limit) (
    fire (rule_dns ph) (
      fire (rule_tls ph) (
        fire (rule_backend ph backend_slack) (
          fire (rule_window ph) (
            fire (cert_rule ph.tls_cert_days_left)
              (fire (http2_rule ph.h2_supported ph.rtt ph.alpn_protocol rtt_high_limit) []))))))

-- `f.code in DEGRADING_FINDING_CODES`
abbrev pub is_degrading_code : Code → Bool
is_degrading_code high_rtt = true
is_degrading_code slow_dns = true
is_degrading_code tls_overhead = true
is_degrading_code slow_backend = true
is_degrading_code window_limited = true
is_degrading_code cert_expiring = false
is_degrading_code http2_unsupported = false

unfoldable pub degrading : List Diagnosis → List Diagnosis
degrading [] = []
degrading (d ∷ ds) = let rest = degrading ds in if is_degrading_code d.code then d ∷ rest else rest

-- The text of the reason, as what it is made of.
pub data Reason : Type 0 where
  findings : List Diagnosis → Reason
  slow_response : ℕ → ℕ → Reason

abbrev pub reason_of : List Diagnosis → ℕ → ℕ → Option Reason
reason_of (d ∷ ds) ttfb limit = some (findings (d ∷ ds))
reason_of [] ttfb limit = if ltb limit ttfb then some (slow_response ttfb limit) else none

unfoldable pub degraded_reason : ProbePhases → List Diagnosis → ℕ → Option Reason
unfolding degrading
degraded_reason ph ds degraded_ttfb_limit = reason_of (degrading ds) ph.ttfb degraded_ttfb_limit
