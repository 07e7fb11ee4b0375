-- ===== src/Check/Probe.antt =====
-- main.py, `_probe_with_backoff`: up to three attempts at one target.
-- What each attempt of `_probe_once` comes to is a script; past its end an attempt fails.
pub mod Attempts
use vigil_sre.Prelude.{
  ℕ, zero, suc, ◌+◌, ◌^◌, min, String, Option, List, [], ◌∷◌, ltb, if◌then◌else◌,
}
use vigil_sre.Prelude.Int.{ℤ}

abbrev pub retry_attempts : ℕ
retry_attempts = 3

abbrev pub retry_backoff_base_s : ℕ
retry_backoff_base_s = 2

abbrev pub retry_backoff_max_s : ℕ
retry_backoff_max_s = 10

-- A successful attempt, as the rules on phases and findings report it: the breakdown's text, the
-- reason to call it degraded, and the days left on the certificate.
pub record Measured : Type 0 where
  pub diagnostics : String
  pub reason : Option String
  pub tls_cert_days_left : Option ℤ

-- A response that counts, a `_ProbeFailure` with its detail, or any other exception.
pub data Attempt : Type 0 where
  success : Measured → Attempt
  failure : String → Attempt
  crash : Attempt

abbrev pub next_attempt : List Attempt → Attempt
next_attempt [] = failure "TimeoutError"
next_attempt (a ∷ as') = a

abbrev pub later_attempts : List Attempt → List Attempt
later_attempts [] = []
later_attempts (a ∷ as') = as'

pub record Probed : Type 0 where
  pub result : Attempt
  pub slept_s : ℕ
  pub attempts : ℕ

-- `for attempt in range(1, RETRY_ATTEMPTS + 1)`; with no round left `last` is raised.
unfoldable pub probe_loop : ℕ → ℕ → String → List Attempt → Probed
probe_loop zero attempt last script = record { result = failure last; slept_s = 0; attempts = 0 }
probe_loop (suc left) attempt last script =
    let again = λ (detail : String). probe_loop left (suc attempt) detail (later_attempts script) in
    elim (next_attempt script) [
      | success phases ↦ record { result = success phases; slept_s = 0; attempts = 1 }
      | crash ↦ record { result = crash; slept_s = 0; attempts = 1 }
      | failure detail ↦
          let p = again detail in
          record {
            result = p.result;
            slept_s =
                (if ltb attempt retry_attempts
                  then min (retry_backoff_base_s ^ attempt) retry_backoff_max_s
                  else 0)
                + p.slept_s;
            attempts = suc p.attempts;
          }
    ]

unfoldable pub probe_with_backoff : List Attempt → Probed
unfolding probe_loop
probe_with_backoff script = probe_loop retry_attempts 1 "" script
