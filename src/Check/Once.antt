-- ===== src/Check/Once.antt =====
-- main.py, `_probe_once`: one GET of a target, and the phases that it yields; and the part of
-- `check_url` that turns them into a verdict. What the network does is the argument of type `Get`.
pub mod Verdict
pub mod Composed
use vigil_sre.Prelude.{
  ℕ, ◌+◌, ◌-◌, ◌*◌, String, Bool, true, false, not, ◌&&◌, Option, none, some, List, leb, ltb, ◌==◌,
  if◌then◌else◌, get_or,
}
use vigil_sre.Prelude.Int.{ℤ}
use vigil_sre.Diagnostics.Phases.{Ratio, ProbePhases, ConnectionSample, second}
use vigil_sre.Diagnostics.Findings.{Diagnosis, Reason, analyze, degraded_reason}
use vigil_sre.Check.Body.{
  Bytes, Fault, timed_out, unforeseen, connection_error, client_error, unicode_error, Stream,
  needle_of, before_body, Body, complete, too_large, lost, read_body,
}
use vigil_sre.Check.Probe
use vigil_sre.Check.Probe.{Attempt, Measured}

-- A response, with the timings of the request; times are in microseconds.
pub record Response : Type 0 where
  pub status : ℕ
  -- did it come over a redirect?
  pub redirected : Bool
  pub ttfb : ℕ
  pub cert_days : Option ℤ
  pub body : Stream
  pub transfer : ℕ
  pub dns : Option ℕ
  pub connect_total : Option ℕ
  pub connection_reused : Bool

pub data Get : Type 0 where
  answered : Response → Get
  failed : Fault → Get

-- What is configured for the probe of a target; the substring is in its UTF-8 bytes.
pub record Settings : Type 0 where
  pub url : String
  pub needle : Option Bytes
  -- what a failed content check shows
  pub display : String
  pub expected_status : ℕ
  pub timeout : ℕ
  pub rtt_limit : ℕ
  pub backend_limit : ℕ
  pub ttfb_limit : ℕ

-- The text of a `_ProbeFailure`, as what it is made of.
pub data Failure : Type 0 where
  unexpected_status : ℕ → ℕ → Failure
  body_exceeded : Failure
  content_check_failed : String → Failure
  timeout_over : ℕ → Failure
  raised : Fault → Failure

pub data Once : Type 0 where
  success : ProbePhases → Once
  failure : Failure → Once
  crash : Once

-- The `except` clauses.
unfoldable pub once_of_fault : Settings → Fault → Once
once_of_fault set timed_out = failure (timeout_over set.timeout)
once_of_fault set (connection_error text) = failure (raised (connection_error text))
once_of_fault set (client_error text) = failure (raised (client_error text))
once_of_fault set (unicode_error text) = failure (raised (unicode_error text))
once_of_fault set unforeseen = crash

-- The time to the first byte less the network's part; void behind a redirect.
unfoldable pub server_processing_of : Response → Option ℕ → Option ℕ
server_processing_of r none = none
server_processing_of r (some rtt) =
    let network_setup = get_or r.dns 0 + get_or r.connect_total 0 + rtt in
    if r.redirected
    then none
    else if ltb network_setup r.ttfb
    then some (r.ttfb - network_setup)
    else none

-- No goodput of an empty body or of a transfer under a millisecond.
unfoldable pub goodput_of : ℕ → ℕ → Option Ratio
goodput_of body_bytes transfer =
    if ltb 0 body_bytes && leb 1000 transfer
    then some (record { num = 8 * (body_bytes * second); den = transfer })
    else none

abbrev pub sampled {ℓ} :
    {A : Type ℓ} → (ConnectionSample → Option A) → Option ConnectionSample → Option A
sampled f none = none
sampled f (some s) = f s

unfoldable pub phases_of : Settings → Option ConnectionSample → Response → ℕ → ProbePhases
unfolding server_processing_of goodput_of
phases_of set sample r body_bytes = record {
  url = set.url;
  http_status = r.status;
  ttfb = r.ttfb;
  transfer = r.transfer;
  body_bytes = body_bytes;
  connection_reused = r.connection_reused;
  dns = r.dns;
  connect_total = r.connect_total;
  rtt = sampled (λ (s : ConnectionSample). s.rtt) sample;
  tls = sampled (λ (s : ConnectionSample). s.tls) sample;
  server_processing = server_processing_of r (sampled (λ (s : ConnectionSample). s.rtt) sample);
  goodput = goodput_of body_bytes r.transfer;
  tls_cert_days_left = r.cert_days;
  alpn_protocol = sampled (λ (s : ConnectionSample). s.alpn_protocol) sample;
  h2_supported = sampled (λ (s : ConnectionSample). s.h2_supported) sample;
}

-- From the body on.
unfoldable pub once_of_body : Settings → Option ConnectionSample → Response → Body → Once
unfolding once_of_fault phases_of
once_of_body set sample r (complete found body_bytes) =
    if found
    then success (phases_of set sample r body_bytes)
    else failure (content_check_failed set.display)
once_of_body set sample r too_large = failure body_exceeded
once_of_body set sample r (lost fault) = once_of_fault set fault

unfoldable pub probe_once : Settings → Option ConnectionSample → Get → Once
unfolding once_of_fault once_of_body read_body
probe_once set sample (failed fault) = once_of_fault set fault
probe_once set sample (answered r) =
    let needle = needle_of set.needle in
    if r.status == set.expected_status
    then once_of_body set sample r (read_body needle r.body (before_body needle))
    else failure (unexpected_status r.status set.expected_status)

-- How the texts are printed.
pub record Texts : Type 0 where
  pub of_failure : Failure → String
  pub of_reason : Reason → String
  pub of_phases : ProbePhases → List Diagnosis → String

abbrev pub map_reason : (Reason → String) → Option Reason → Option String
map_reason print none = none
map_reason print (some r) = some (print r)

-- What `check_url` makes of the phases of a successful probe.
unfoldable pub measure : Texts → Settings → ProbePhases → Measured
unfolding analyze degraded_reason
measure t set ph =
    let findings = analyze ph set.rtt_limit set.backend_limit in
    record {
      diagnostics = t.of_phases ph findings;
      reason = map_reason t.of_reason (degraded_reason ph findings set.ttfb_limit);
      tls_cert_days_left = ph.tls_cert_days_left;
    }

unfoldable pub attempt_of_once : Texts → Settings → Once → Attempt
unfolding measure
attempt_of_once t set (success ph) = Probe.success (measure t set ph)
attempt_of_once t set (failure f) = Probe.failure (t.of_failure f)
attempt_of_once t set crash = Probe.crash

unfoldable pub attempt_of : Texts → Settings → Option ConnectionSample → Get → Attempt
unfolding attempt_of_once probe_once
attempt_of t set sample g = attempt_of_once t set (probe_once set sample g)
