-- ===== src/Check/Once/Verdict.antt =====
-- main.py: which answers of a target count as a success, and as a healthy one.
use vigil_sre.Prelude.{
  ◌≤◌, ◌≡◌, ◌↔◌, refl, true, false, Option, none, some, length, arith, ltb, ==_true, Bool-cases,
  inl, inr, ◌==◌,
}
use vigil_sre.Diagnostics.Phases.{ConnectionSample}
use vigil_sre.Check.Body.{
  Bytes, Fault, needle_of, contains_bytes, max_body_bytes, timed_out, unforeseen, connection_error,
  client_error, unicode_error,
}
use vigil_sre.Check.Body.Search.{joined, ending, whole_body, read_body_lem}
use vigil_sre.Check.Once.{
  Response, Get, answered, failed, Settings, Once, success, failure, crash, once_of_fault,
  once_of_body, phases_of, probe_once,
}

-- The response that a target is asked for.
pub record Answers (set : Settings) (r : Response) : Type 0 where
  pub status : r.status ≡ set.expected_status
  pub ended : ending r.body ≡ none
  pub small : length (joined r.body) ≤ 4194304
  pub content : contains_bytes (needle_of set.needle) (joined r.body) ≡ true

abbrev pub Wanted : Settings → Get → Type 0
Wanted set (answered r) = Answers set r
Wanted set (failed fault) = ⊥

abbrev pub IsSuccess : Once → Type 0
IsSuccess (success ph) = Unit
IsSuccess (failure f) = ⊥
IsSuccess crash = ⊥

once_of_fault-fails : (set : Settings) (fault : Fault) → ¬ IsSuccess (once_of_fault set fault)
unfolding once_of_fault
once_of_fault-fails set timed_out = λ h. h
once_of_fault-fails set unforeseen = λ h. h
once_of_fault-fails set (connection_error text) = λ h. h
once_of_fault-fails set (client_error text) = λ h. h
once_of_fault-fails set (unicode_error text) = λ h. h

module _ (set : Settings) (sample : Option ConnectionSample) (r : Response) where
  whole_body-succeeds :
      (n body : Bytes) (end : Option Fault)
      → IsSuccess (once_of_body set sample r (whole_body n body end))
        ↔ ((end ≡ none) × (length body ≤ 4194304) × (contains_bytes n body ≡ true))
  unfolding once_of_body
  whole_body-succeeds n body (some fault) = elim (Bool-cases (ltb max_body_bytes (length body))) [
    | inl big ↦ rw big (λ h. absurd h, λ h. cc h.0)
    | inr fits ↦ rw fits (λ h. absurd (once_of_fault-fails set fault h), λ h. cc h.0)
  ]
  whole_body-succeeds n body none = elim (Bool-cases (ltb max_body_bytes (length body))) [
    | inl big ↦ rw big (λ h. absurd h, λ h. absurd (ground arith))
    | inr fits ↦ elim (Bool-cases (contains_bytes n body)) [
      | inl e ↦ rw (fits, e) (λ h. (refl, ground arith, refl), λ h. tt)
      | inr e ↦ rw (fits, e) (λ h. absurd h, λ h. cc h.2)
    ]
  ]

-- An attempt succeeds exactly if the target answers with the expected status and a body of at most
-- 4 MiB that is read to its end and contains the expected text.
pub probe_once-IsSuccess :
    (set : Settings) (sample : Option ConnectionSample) (g : Get)
    → IsSuccess (probe_once set sample g) ↔ Wanted set g
unfolding probe_once
probe_once-IsSuccess set sample (failed fault) =
    (λ h. absurd (once_of_fault-fails set fault h), λ h. absurd h)
probe_once-IsSuccess set sample (answered r) =
    let n = needle_of set.needle in
    let whole = whole_body-succeeds set sample r n (joined r.body) (ending r.body) in
    elim (Bool-cases (r.status == set.expected_status)) [
      | inl same ↦
          rw (same, read_body_lem n r.body)
            (
              λ h.
                  let (e, s, c) = whole.0 h in
                  record { status = ground arith; ended = e; small = s; content = c },
              λ h. whole.1 (h.ended, h.small, h.content),
            )
      | inr other ↦ rw other (λ h. absurd h, λ h. absurd (ground (arith, h.status)))
    ]

module _ (set : Settings) (sample : Option ConnectionSample) (r : Response)
    (a : Answers set r) where
  -- The phases of such a response.
  pub probe_once-phases :
      probe_once set sample (answered r) ≡ success (phases_of set sample r (length (joined r.body)))
  unfolding probe_once once_of_body
  probe_once-phases =
      rw
        (
          ==_true r.status set.expected_status a.status,
          read_body_lem (needle_of set.needle) r.body,
          a.ended,
        )
        (rw (fits, a.content))
    where
      fits : ltb max_body_bytes (length (joined r.body)) ≡ false
      fits = ground (arith, a.small)
