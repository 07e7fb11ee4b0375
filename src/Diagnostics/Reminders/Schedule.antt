-- ===== src/Diagnostics/Reminders/Schedule.antt =====
-- diagnostics.py, `reminders_due`: how the schedule grows.
use vigil_sre.Prelude.{ℕ, ◌+◌, ◌*◌, ◌≤◌, ◌<◌, ◌≡◌, List, [], ◌∷◌, arith}
use vigil_sre.Diagnostics.Reminders.{passed, reminders_due, reminder_schedule_h}

passed_mono : (ts : List ℕ) (a b : ℕ) → a ≤ b → passed ts a ≤ passed ts b
unfolding passed
passed_mono [] a b h = omega arith
passed_mono (t ∷ ts) a b h = ground (arith, passed_mono ts a b h)

-- An older outage never has fewer reminders due.
pub reminders_due_mono : (a b : ℕ) → a ≤ b → reminders_due a ≤ reminders_due b
unfolding reminders_due
reminders_due_mono a b h = ground (arith, passed_mono reminder_schedule_h a b h)

-- From twelve hours on there are five reminders and one more for each full day since: with `days`
-- full days and less than one more, `5 + days`. Before one hour there is none.
pub reminders_due_lem :
    (days seconds : ℕ)
    → (seconds < 86400 → reminders_due (43200 + 86400 * days + seconds) ≡ 5 + days)
      × (seconds < 3600 → reminders_due seconds ≡ 0)
unfolding reminders_due passed
reminders_due_lem days seconds = (λ h. ground arith, λ h. ground arith)
