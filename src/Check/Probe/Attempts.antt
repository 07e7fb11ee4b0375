-- ===== src/Check/Probe/Attempts.antt =====
-- main.py, `_probe_with_backoff`: when a probe succeeds, and what its retries cost.
use vigil_sre.Prelude.{ℕ, zero, suc, ◌≤◌, String, ◌≡◌, refl, ◌↔◌, List, [], ◌∷◌, arith}
use vigil_sre.Check.Probe.{
  Measured, Attempt, success, failure, crash, next_attempt, later_attempts, probe_loop,
  probe_with_backoff,
}

-- What an attempt says of the whole probe, given what those behind it would say.
abbrev Decides : Attempt → Measured → Type 0 → Type 0
Decides (success found) phases rest = found ≡ phases
Decides (failure detail) phases rest = rest
Decides crash phases rest = ⊥

-- One of the first `n` attempts measures `phases`, and all before it fail.
abbrev pub Succeeds : ℕ → Measured → List Attempt → Type 0
Succeeds zero phases script = ⊥
Succeeds (suc n) phases script =
    Decides (next_attempt script) phases (Succeeds n phases (later_attempts script))

probe_loop-Succeeds :
    (left : ℕ) (script : List Attempt) (attempt : ℕ) (last : String) (phases : Measured)
    → ((probe_loop left attempt last script).result ≡ success phases) ↔ Succeeds left phases script
unfolding probe_loop
probe_loop-Succeeds zero script attempt last phases = (λ h. cc, λ h. absurd h)
probe_loop-Succeeds (suc left) [] attempt last phases =
    probe_loop-Succeeds left [] (suc attempt) "TimeoutError" phases
probe_loop-Succeeds (suc left) (success found ∷ script) attempt last phases = (λ h. cc, λ h. cc)
probe_loop-Succeeds (suc left) (failure detail ∷ script) attempt last phases =
    probe_loop-Succeeds left script (suc attempt) detail phases
probe_loop-Succeeds (suc left) (crash ∷ script) attempt last phases = (λ h. cc, λ h. absurd h)

probe_loop-attempts :
    (left : ℕ) (script : List Attempt) (attempt : ℕ) (last : String)
    → (probe_loop left attempt last script).attempts ≤ left
unfolding probe_loop
probe_loop-attempts zero script attempt last = omega arith
probe_loop-attempts (suc left) [] attempt last =
    omega (arith, probe_loop-attempts left [] (suc attempt) "TimeoutError")
probe_loop-attempts (suc left) (success found ∷ script) attempt last = omega arith
probe_loop-attempts (suc left) (failure detail ∷ script) attempt last =
    omega (arith, probe_loop-attempts left script (suc attempt) detail)
probe_loop-attempts (suc left) (crash ∷ script) attempt last = omega arith

-- What a failure says of the attempts made.
probe_loop-exhausts :
    (left : ℕ) (script : List Attempt) (attempt : ℕ) (last detail : String)
    → (probe_loop left attempt last script).result ≡ failure detail
    → (probe_loop left attempt last script).attempts ≡ left
unfolding probe_loop
probe_loop-exhausts zero script attempt last detail h = refl
probe_loop-exhausts (suc left) [] attempt last detail h =
    omega (arith, probe_loop-exhausts left [] (suc attempt) "TimeoutError" detail h)
probe_loop-exhausts (suc left) (success found ∷ script) attempt last detail h = cc
probe_loop-exhausts (suc left) (failure d ∷ script) attempt last detail h =
    omega (arith, probe_loop-exhausts left script (suc attempt) d detail h)
probe_loop-exhausts (suc left) (crash ∷ script) attempt last detail h = cc

-- The waits of an attempt and those behind it.
abbrev Waits : ℕ → ℕ → ℕ → Type 0
Waits left attempt bound =
    (last : String) (script : List Attempt) → (probe_loop left attempt last script).slept_s ≤ bound

third-Waits : Waits 1 3 0
unfolding probe_loop
third-Waits last [] = omega arith
third-Waits last (success found ∷ script) = omega arith
third-Waits last (failure detail ∷ script) = omega arith
third-Waits last (crash ∷ script) = omega arith

second-Waits : Waits 2 2 4
unfolding probe_loop
second-Waits last [] = omega (arith, third-Waits "TimeoutError" [])
second-Waits last (success found ∷ script) = omega arith
second-Waits last (failure detail ∷ script) = omega (arith, third-Waits detail script)
second-Waits last (crash ∷ script) = omega arith

first-Waits : Waits 3 1 6
unfolding probe_loop
first-Waits last [] = omega (arith, second-Waits "TimeoutError" [])
first-Waits last (success found ∷ script) = omega arith
first-Waits last (failure detail ∷ script) = omega (arith, second-Waits detail script)
first-Waits last (crash ∷ script) = omega arith

-- A probe measures `phases` exactly if one of its first three attempts does and all before that
-- fail; it fails only after three attempts; and it never makes more than three, nor waits for more
-- than six seconds in all.
pub probe_with_backoff_lem :
    (script : List Attempt) (phases : Measured) (detail : String)
    → let p = probe_with_backoff script in
      ((p.result ≡ success phases) ↔ Succeeds 3 phases script)
      × (p.result ≡ failure detail → p.attempts ≡ 3)
      × (p.attempts ≤ 3)
      × (p.slept_s ≤ 6)
unfolding probe_with_backoff
probe_with_backoff_lem script phases detail = (
  probe_loop-Succeeds 3 script 1 "" phases,
  probe_loop-exhausts 3 script 1 "" detail,
  probe_loop-attempts 3 script 1 "",
  first-Waits "" script,
)
