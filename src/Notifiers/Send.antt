-- ===== src/Notifiers/Send.antt =====
-- notifiers.py, `Notifier.send`: one alert on one channel, with its retries.
-- The network is a script of what each coming POST meets; past its end a POST times out.
-- Times are in milliseconds. The payload and the log lines are not modelled.
pub mod Answers
pub mod Bounds
use vigil_sre.Prelude.{
  ℕ, zero, suc, ◌+◌, ◌*◌, min, String, Bool, true, false, not, ◌&&◌, ◌||◌, Option, none, some, List,
  [], ◌∷◌, leb, ltb, ◌==◌, if◌then◌else◌, str_eq,
}

abbrev pub webhook_retry_attempts : ℕ
webhook_retry_attempts = 3

abbrev pub webhook_retry_base_ms : ℕ
webhook_retry_base_ms = 1000

abbrev pub webhook_retry_after_cap_ms : ℕ
webhook_retry_after_cap_ms = 30000

-- The `Retry-After` header as `float` reads it: missing, refused, not finite, below 0, or a time.
pub data RetryAfter : Type 0 where
  missing malformed not_finite negative : RetryAfter
  wait_ms : ℕ → RetryAfter

-- A status with its header; a timeout or an `aiohttp.ClientError`; any other exception.
pub data Response : Type 0 where
  answered : ℕ → RetryAfter → Response
  client_error : Response
  other_error : Response

pub data SendResult : Type 0 where
  returned : Bool → SendResult
  raised : SendResult

-- `result is True`
abbrev pub is_true : SendResult → Bool
is_true (returned b) = b
is_true raised = false

pub record Sent : Type 0 where
  pub result : SendResult
  pub slept_ms : ℕ
  pub posts : ℕ
  pub rest : List Response

-- What one attempt comes to: the end of the call, or a wait before the next.
pub data Attempt : Type 0 where
  ends : SendResult → Attempt
  waits : ℕ → Attempt

unfoldable pub is_2xx : ℕ → Bool
is_2xx status = leb 200 status && ltb status 300

unfoldable pub is_retryable : ℕ → Bool
is_retryable status = status == 429 || leb 500 status

unfoldable pub backoff_ms : ℕ → RetryAfter → ℕ → ℕ
backoff_ms status (wait_ms w) attempt =
    if status == 429 then min w webhook_retry_after_cap_ms else webhook_retry_base_ms * attempt
backoff_ms status _ attempt = webhook_retry_base_ms * attempt

unfoldable pub attempt_of : Response → ℕ → Bool → Attempt
unfolding is_2xx is_retryable backoff_ms
attempt_of (answered status header) attempt is_last =
    if is_2xx status
    then ends (returned true)
    else if not (is_retryable status) || is_last
    then ends (returned false)
    else waits (backoff_ms status header attempt)
attempt_of client_error attempt is_last =
    if is_last then ends (returned false) else waits (webhook_retry_base_ms * attempt)
attempt_of other_error attempt is_last = ends raised

abbrev pub next_response : List Response → Response
next_response [] = client_error
next_response (r ∷ rs) = r

abbrev pub later_responses : List Response → List Response
later_responses [] = []
later_responses (r ∷ rs) = rs

-- One more attempt, and one more wait, in front of what the later attempts come to.
abbrev pub after_wait : ℕ → Sent → Sent
after_wait w s = record s { slept_ms = w + s.slept_ms; posts = suc s.posts }

-- `for attempt in range(1, WEBHOOK_RETRY_ATTEMPTS + 1)`, with the rounds that are left.
unfoldable pub send_loop : ℕ → ℕ → List Response → Sent
unfolding attempt_of
send_loop zero attempt rs = record { result = returned false; slept_ms = 0; posts = 0; rest = rs }
send_loop (suc left) attempt rs =
    let later = send_loop left (suc attempt) (later_responses rs) in
    elim (attempt_of (next_response rs) attempt (attempt == webhook_retry_attempts)) [
      | ends r ↦ record { result = r; slept_ms = 0; posts = 1; rest = later_responses rs }
      | waits w ↦ after_wait w later
    ]

pub record Channel : Type 0 where
  pub name : String
  -- the environment variable of the webhook
  pub env : Option String
  pub script : List Response

-- `os.getenv(self.env_var) or None`
unfoldable pub webhook_url : Channel → Option String
webhook_url c = elim c.env [ none ↦ none | some s ↦ if str_eq s "" then none else some s ]

unfoldable pub send : Channel → Sent
unfolding webhook_url send_loop
send c = elim (webhook_url c) [
  | none ↦ record { result = returned false; slept_ms = 0; posts = 0; rest = c.script }
  | some w ↦ send_loop webhook_retry_attempts 1 c.script
]
