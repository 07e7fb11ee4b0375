-- ===== src/Tests/Probe.antt =====
-- One request of a target.
use vigil_sre.Prelude.{◌≡◌, refl, ◌↔◌, true, false, none, some, [], ◌∷◌, arith}
use vigil_sre.Prelude.Int.{pos}
use vigil_sre.Tests.Data.{api}
use vigil_sre.Diagnostics.Phases.{ProbePhases, ConnectionSample}
use vigil_sre.Diagnostics.Findings.{analyze, degraded_reason}
use vigil_sre.Diagnostics.Findings.Reasons.{Calm, degraded_reason_lem}
use vigil_sre.State.Record.{up, at}
use vigil_sre.State.Manager.{new_manager, wrapped}
use vigil_sre.Check.Body.{Bytes, Stream, finished, chunk, before_body, read_body, contains_bytes}
use vigil_sre.Check.Body.Search.{joined, ending, whole_body, read_body_lem}
use vigil_sre.Check.Once.{
  Response, answered, Settings, Texts, attempt_of, probe_once, phases_of, server_processing_of,
  goodput_of,
}
use vigil_sre.Check.Once.Verdict.{Answers, IsSuccess, Wanted, probe_once-IsSuccess}
use vigil_sre.Check.Once.Composed.{calm_answer_is_up}
use vigil_sre.Check.World.{World, read_clock}
use vigil_sre.Check.Url.{Target, check_url}

-- "ok" across two chunks
abbrev cut : Stream
cut = chunk (b'{' ∷ b'o' ∷ []) (chunk (b'k' ∷ b'}' ∷ []) finished)

abbrev ok_bytes : Bytes
ok_bytes = b'o' ∷ b'k' ∷ []

read_body_lem_example :
    read_body ok_bytes cut (before_body ok_bytes) ≡ whole_body ok_bytes (joined cut) (ending cut)
read_body_lem_example = read_body_lem ok_bytes cut

abbrev settings : Settings
settings = record {
  url = api;
  needle = some ok_bytes;
  display = "ok";
  expected_status = 200;
  timeout = 10000000;
  rtt_limit = 150000;
  backend_limit = 500000;
  ttfb_limit = 2000000;
}

abbrev response : Response
response = record {
  status = 200;
  redirected = true;
  ttfb = 1500000;
  cert_days = some (pos 40);
  body = cut;
  transfer = 2000;
  dns = some 20000;
  connect_total = some 60000;
  connection_reused = false;
}

abbrev sample : ConnectionSample
sample = record {
  rtt = some 30000;
  tls = some 90000;
  alpn_protocol = some "h2";
  h2_supported = some true;
}

answers : Answers settings response
unfolding contains_bytes
answers = record { status = refl; ended = refl; small = omega arith; content = refl }

probe_once-IsSuccess_example :
    IsSuccess (probe_once settings (some sample) (answered response))
    ↔ Wanted settings (answered response)
probe_once-IsSuccess_example = probe_once-IsSuccess settings (some sample) (answered response)

abbrev phases : ProbePhases
phases = phases_of settings (some sample) response 4

calm : Calm phases 150000 500000 2000000
unfolding phases_of server_processing_of goodput_of
calm = record {
  near = omega arith;
  resolved = omega arith;
  handshake = omega arith;
  backend = tt;
  window = λ h. absurd (omega (arith, h));
  quick = omega arith;
}

degraded_reason_lem_example :
    (degraded_reason phases (analyze phases 150000 500000) 2000000 ≡ none)
    ↔ Calm phases 150000 500000 2000000
degraded_reason_lem_example = degraded_reason_lem phases 150000 500000 2000000

abbrev texts : Texts
texts = record { of_failure = λ f. "failed"; of_reason = λ r. "slow"; of_phases = λ p ds. "phases" }

abbrev target : Target
target = record { url = api; remind = false; trend_alerts = true; maintenance = none }

abbrev world : World
world = record {
  state = new_manager (wrapped (some [])) [];
  channels = [];
  circuits = [];
  now = 100;
  clock = 107 ∷ [];
  dispatches = [];
}

calm_answer_is_up_example :
    (check_url target (attempt_of texts settings (some sample) (answered response) ∷ []) world).0
    ≡ some (record { url = api; status = up; error = none; checked_at = at (read_clock world).now })
calm_answer_is_up_example =
    calm_answer_is_up target texts settings (some sample) response [] world answers calm
