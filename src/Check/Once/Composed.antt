-- ===== src/Check/Once/Composed.antt =====
-- main.py, `check_url`: from the answer of a target to the status that its check reports.
use vigil_sre.Prelude.{ℕ, ◌≡◌, refl, true, none, Option, some, List, ◌∷◌, length, ap, ◌∙◌, sym}
use vigil_sre.State.Record.{up, at}
use vigil_sre.Diagnostics.Phases.{ProbePhases, ConnectionSample}
use vigil_sre.Diagnostics.Findings.{Diagnosis, rule_backend}
use vigil_sre.Diagnostics.Findings.Reasons.{Calm, degraded_reason_lem}
use vigil_sre.Check.Body.Search.{joined}
use vigil_sre.Check.World.{World, read_clock}
use vigil_sre.Check.Probe
use vigil_sre.Check.Probe.{Attempt, Measured, probe_with_backoff}
use vigil_sre.Check.Url.{Target, check_url, check_result, check_success}
use vigil_sre.Check.Once.{
  Response, answered, Settings, Texts, attempt_of, attempt_of_once, measure, phases_of, probe_once,
  success, server_processing_of, sampled, Once, failure, crash,
}
use vigil_sre.Check.Once.Verdict.{Answers, probe_once-phases, probe_once-IsSuccess}

-- A check whose first attempt measures phases without a reason reports UP.
healthy_check :
    (t : Target) (m : Measured) (rest : List Attempt) (w : World)
    → m.reason ≡ none
    → (check_url t (Probe.success m ∷ rest) w).0
      ≡ some (record { url = t.url; status = up; error = none; checked_at = at (read_clock w).now })
unfolding check_url check_result check_success probe_with_backoff
healthy_check t m rest w e = rw e

-- If the first request of a check is answered as configured and every timing is within its limit,
-- then the check reports UP, at the time of the answer, whatever the record of the target says.
pub calm_answer_is_up :
    (t : Target) (texts : Texts) (set : Settings) (sample : Option ConnectionSample) (r : Response)
    (rest : List Attempt) (w : World)
    → Answers set r
    → Calm
        (phases_of set sample r (length (joined r.body)))
        set.rtt_limit
        set.backend_limit
        set.ttfb_limit
    → (check_url t (attempt_of texts set sample (answered r) ∷ rest) w).0
      ≡ some (record { url = t.url; status = up; error = none; checked_at = at (read_clock w).now })
unfolding attempt_of attempt_of_once measure
calm_answer_is_up t texts set sample r rest w a calm =
    let ph = phases_of set sample r (length (joined r.body)) in
    let quiet = (degraded_reason_lem ph set.rtt_limit set.backend_limit set.ttfb_limit).1 calm in
    rw (probe_once-phases set sample r a) (healthy_check t (measure texts set ph) rest w (rw quiet))

abbrev backend_finding : ℕ → Once → Option Diagnosis
backend_finding limit (success ph) = rule_backend ph limit
backend_finding limit (failure f) = none
backend_finding limit crash = none

redirect_hides_processing :
    (r : Response) (rtt : Option ℕ) → r.redirected ≡ true → server_processing_of r rtt ≡ none
unfolding server_processing_of
redirect_hides_processing r none red = refl
redirect_hides_processing r (some n) red = rw red refl

no_backend_finding :
    (set : Settings) (sample : Option ConnectionSample) (r : Response) (limit n : ℕ)
    → r.redirected ≡ true
    → rule_backend (phases_of set sample r n) limit ≡ none
unfolding rule_backend phases_of
no_backend_finding set sample r limit n red =
    rw (redirect_hides_processing r (sampled (λ s. s.rtt) sample) red) refl

-- A response that came over a redirect never counts as a slow backend, whatever its timings.
pub redirect_spares_backend :
    (set : Settings) (sample : Option ConnectionSample) (r : Response) (ph : ProbePhases)
    (backend_limit : ℕ)
    → r.redirected ≡ true
    → probe_once set sample (answered r) ≡ success ph
    → rule_backend ph backend_limit ≡ none
redirect_spares_backend set sample r ph limit red e =
    let a = (probe_once-IsSuccess set sample (answered r)).0 (rw e tt) in
    let found = ap (backend_finding limit) (sym (probe_once-phases set sample r a) ∙ e) in
    sym found ∙ no_backend_finding set sample r limit (length (joined r.body)) red
