-- ===== src/Notifiers/Send/Answers.antt =====
-- notifiers.py, `Notifier.send`: what one attempt comes to, by its answer.
use vigil_sre.Prelude.{
  ℕ, zero, suc, ◌*◌, ◌≤◌, ◌<◌, ◌≡◌, ◌⊎◌, inl, inr, Bool, true, false, List, arith, Bool-cases, refl,
  dec_lt, ◌==◌,
}
use vigil_sre.Notifiers.Send.{
  webhook_retry_base_ms, backoff_ms, missing, malformed, not_finite, negative, wait_ms, ends, waits,
  Response, answered, client_error, other_error, SendResult, returned, raised, RetryAfter, is_true,
  attempt_of, next_response, later_responses, is_2xx, is_retryable,
}

-- A status that counts as delivered, and an answer that is worth another attempt.
abbrev pub Delivers : Response → Type 0
Delivers (answered status header) = (200 ≤ status) × (status < 300)
Delivers client_error = ⊥
Delivers other_error = ⊥

abbrev pub MayHeal : Response → Type 0
MayHeal (answered status header) = (status ≡ 429) ⊎ (500 ≤ status)
MayHeal client_error = Unit
MayHeal other_error = ⊥

-- One of the first `n` attempts delivers, and all before it may heal.
abbrev pub Accepted : ℕ → List Response → Type 0
Accepted zero rs = ⊥
Accepted (suc n) rs =
    Delivers (next_response rs) ⊎ (MayHeal (next_response rs) × Accepted n (later_responses rs))

backoff_ms-le :
    (status : ℕ) (header : RetryAfter) (attempt : ℕ)
    → attempt ≤ 3
    → backoff_ms status header attempt ≤ 30000
unfolding backoff_ms
backoff_ms-le status (wait_ms w) attempt h = ground arith
backoff_ms-le status missing attempt h = ground arith
backoff_ms-le status malformed attempt h = ground arith
backoff_ms-le status not_finite attempt h = ground arith
backoff_ms-le status negative attempt h = ground arith

-- What one attempt comes to, by its response.
module _ (attempt : ℕ) (le : attempt ≤ 3) where
  pub attempt-Delivers :
      (r : Response) (last : Bool) → Delivers r → attempt_of r attempt last ≡ ends (returned true)
  unfolding attempt_of
  attempt-Delivers (answered status header) last d = ground arith
  attempt-Delivers client_error last d = absurd d
  attempt-Delivers other_error last d = absurd d

  pub attempt-heals :
      (r : Response) → MayHeal r → (w : ℕ) × (attempt_of r attempt false ≡ waits w) × (w ≤ 30000)
  unfolding attempt_of
  attempt-heals (answered status header) m =
      (backoff_ms status header attempt, ground arith, backoff_ms-le status header attempt le)
  attempt-heals client_error m = (webhook_retry_base_ms * attempt, refl, omega arith)
  attempt-heals other_error m = absurd m

-- The answers fall into those that deliver, those that may heal and the rest.
pub data Kind (r : Response) : Type 0 where
  delivers : Delivers r → Kind r
  heals : MayHeal r → (Delivers r → ⊥) → Kind r
  fails : (MayHeal r → ⊥) → (Delivers r → ⊥) → Kind r

pub kind : (r : Response) → Kind r
kind (answered status header) = elim (dec_lt status 200) [
  | yes a ↦ fails (λ m. ground arith) (λ d. ground arith)
  | no a ↦ elim (dec_lt status 300) [
    | yes b ↦ delivers (ground arith)
    | no b ↦ elim (dec_lt status 500) [
      | no c ↦ heals (inr (ground arith)) (λ d. ground arith)
      | yes c ↦ elim (Bool-cases (status == 429)) [
        | inl e ↦ heals (inl (ground arith)) (λ d. ground arith)
        | inr e ↦ fails (λ m. ground arith) (λ d. ground arith)
      ]
    ]
  ]
]
kind client_error = heals tt (λ d. d)
kind other_error = fails (λ d. d) (λ d. d)

is_2xx-false : (status : ℕ) → ((200 ≤ status) × (status < 300) → ⊥) → is_2xx status ≡ false
unfolding is_2xx
is_2xx-false status d = elim (Bool-cases (is_2xx status)) [
  | inl e ↦ absurd (d (ground arith))
  | inr e ↦ e
]

is_retryable-false :
    (status : ℕ) → ((status ≡ 429) ⊎ (500 ≤ status) → ⊥) → is_retryable status ≡ false
unfolding is_retryable
is_retryable-false status m = elim (Bool-cases (is_retryable status)) [
  | inl e ↦ elim (Bool-cases (status == 429)) [
    | inl q ↦ absurd (m (inl (ground arith)))
    | inr q ↦ absurd (m (inr (ground arith)))
  ]
  | inr e ↦ e
]

pub attempt-fails :
    (attempt : ℕ) (last : Bool) (r : Response)
    → (MayHeal r → ⊥)
    → (Delivers r → ⊥)
    → (res : SendResult) × (attempt_of r attempt last ≡ ends res) × (is_true res ≡ false)
unfolding attempt_of
attempt-fails attempt last (answered status header) m d =
    (returned false, rw (is_2xx-false status d, is_retryable-false status m), refl)
attempt-fails attempt last client_error m d = absurd (m tt)
attempt-fails attempt last other_error m d = (raised, refl, refl)

pub attempt-last :
    (attempt : ℕ) (r : Response)
    → (Delivers r → ⊥)
    → (res : SendResult) × (attempt_of r attempt true ≡ ends res) × (is_true res ≡ false)
unfolding attempt_of
attempt-last attempt (answered status header) d =
    (returned false, rw (is_2xx-false status d) (ground arith), refl)
attempt-last attempt client_error d = (returned false, refl, refl)
attempt-last attempt other_error d = (raised, refl, refl)
