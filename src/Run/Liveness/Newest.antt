-- ===== src/Run/Liveness/Newest.antt =====
-- main.py, `liveness_problem`: the newest check decides.
use vigil_sre.Prelude.{
  ℕ, ◌+◌, ◌-◌, ◌≤◌, ◌<◌, ◌≡◌, ◌↔◌, ◌⊎◌, inl, inr, Option, none, some, [], ◌∷◌, arith, leb-false,
}
use vigil_sre.State.Record.{Stamp, at, garbled}
use vigil_sre.State.Manager.{Targets, Document}
use vigil_sre.Run.Liveness.{
  Problem, stale_round_marker, liveness_problem, newest_check, newer, document_targets, judge_age,
}

-- A time no more than `max_age` before `now`, or after it.
abbrev pub Fresh : ℕ → ℕ → Stamp → Type 0
Fresh now max_age (at seen) = now ≤ seen + max_age
Fresh now max_age (garbled s) = ⊥

abbrev pub AnyFresh : ℕ → ℕ → Targets → Type 0
AnyFresh now max_age [] = ⊥
AnyFresh now max_age ((k, r) ∷ ts) = Fresh now max_age r.last_checked ⊎ AnyFresh now max_age ts

abbrev FreshNewest : ℕ → ℕ → Option ℕ → Type 0
FreshNewest now max_age none = ⊥
FreshNewest now max_age (some seen) = now ≤ seen + max_age

newer_lem :
    (now max_age : ℕ) (s : Stamp) (newest : Option ℕ)
    → FreshNewest now max_age (newer s newest)
      ↔ (FreshNewest now max_age newest ⊎ Fresh now max_age s)
unfolding newer
newer_lem now max_age (garbled s) newest = (λ h. inl h, elim [ inl h ↦ h | inr h ↦ absurd h ])
newer_lem now max_age (at seen) none = (λ h. inr h, elim [ inl h ↦ absurd h | inr h ↦ h ])
newer_lem now max_age (at seen) (some n) = (λ h. ground arith, λ h. ground arith)

newest_check_lem :
    (now max_age : ℕ) (ts : Targets) (newest : Option ℕ)
    → FreshNewest now max_age (newest_check ts newest)
      ↔ (FreshNewest now max_age newest ⊎ AnyFresh now max_age ts)
unfolding newest_check
newest_check_lem now max_age [] newest = (λ h. inl h, elim [ inl h ↦ h | inr h ↦ absurd h ])
newest_check_lem now max_age ((k, r) ∷ ts) newest =
    let ih = newest_check_lem now max_age ts (newer r.last_checked newest) in
    let one = newer_lem now max_age r.last_checked newest in
    (
      λ h. elim (ih.0 h) [
        | inl x ↦ elim (one.0 x) [ inl y ↦ inl y | inr y ↦ inr (inl y) ]
        | inr x ↦ inr (inr x)
      ],
      elim [
        | inl x ↦ ih.1 (inl (one.1 (inl x)))
        | inr x ↦ elim x [ inl y ↦ ih.1 (inl (one.1 (inr y))) | inr y ↦ ih.1 (inr y) ]
      ],
    )

judge_age_lem :
    (newest : Option ℕ) (now max_age : ℕ) (p : Problem)
    → (judge_age newest now max_age (some p) ≡ none) ↔ FreshNewest now max_age newest
unfolding judge_age
judge_age_lem none now max_age p = (λ h. cc, λ h. absurd h)
judge_age_lem (some seen) now max_age p = (λ h. ground arith, λ h. ground arith)

-- When the last round started longer ago than the limit, the monitor counts as alive exactly if
-- some target's last check is within the limit: the newest check decides, so a record that nobody
-- updates does no harm.
pub liveness_problem_lem :
    (file : Document) (started now max_age : ℕ)
    → started + max_age < now
    → (liveness_problem file (some started) now max_age ≡ none)
      ↔ AnyFresh now max_age (document_targets file)
unfolding liveness_problem
liveness_problem_lem file started now max_age stale =
    let judged =
      judge_age_lem (newest_check (document_targets file) none) now max_age stale_round_marker in
    let newest = newest_check_lem now max_age (document_targets file) none in
    rw (leb-false (now - started) max_age (omega arith)) (
      λ h. elim (newest.0 (judged.0 h)) [ inl x ↦ absurd x | inr x ↦ x ],
      λ h. judged.1 (newest.1 (inr h)),
    )
